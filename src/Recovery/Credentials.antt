-- ===== src/Recovery/Credentials.antt =====
-- Tokens that are refreshed: before they expire, and after an account was parked for its credential
-- (`RefreshExpiring`, `RecoverCredentials`).
use grok2api.Prelude.{
  ℕ, ◌+◌, ◌*◌, Bool, true, false, not, ◌&&◌, ◌||◌, Option, none, some, List, [], ◌∷◌, ◌++◌, ltb,
  ◌==◌, if◌then◌else◌, codes, is_empty, Time, Duration, minute,
}
use grok2api.Account.{
  Account, no_reason, auth, is_ready, is_unavailable, mark_ready, mark_unavailable,
  recover_validated, disable_revoked,
}
use grok2api.Recovery.Base.{
  World, Env, Validation, Refreshed, refreshed, refresh_failed, RefreshError, listed, save, walk,
  wait, is_unrecoverable_auth_code, fail_refresh, credential_retry_at, auth_validation_backoff,
}
use grok2api.Recovery.Batch.{
  reason_is, still_waits, candidates, batch, expiring_before, auth_before,
}
use grok2api.Recovery.Isolate.{isolate_revoked_account}
use grok2api.Recovery.Validating.{
  CredentialResult, no_credential, one_failed, or_failed, is_none, over_batch,
}

abbrev pub one_revoked : CredentialResult → CredentialResult
one_revoked r = record r { revoked = r.revoked + 1 }

-- A refresh that failed, in both passes.
unfoldable pub refresh_refused :
    Env → Time → RefreshError → Account → World × CredentialResult → World × CredentialResult
refresh_refused env now e a (w, r) =
    let b = fail_refresh e now a in
    or_failed (if is_unrecoverable_auth_code b.last_error_code then one_revoked r else one_failed r)
      (save env b w)

abbrev pub max_proactive_refreshes_per_tick : ℕ
max_proactive_refreshes_per_tick = 256

unfoldable pub expiring : Time → Account → Bool
expiring deadline a =
    is_ready a.pool
    && (not (is_empty a.refresh_token || (is_empty a.oidc_issuer || is_empty a.oidc_client_id))
        && not (a.expires_at == 0 || ltb deadline a.expires_at))

abbrev pub count_renewed : CredentialResult → World × Bool → World × CredentialResult
count_renewed r (t, true) = (t, record r { renewed = r.renewed + 1 })
count_renewed r (t, false) = (t, one_failed r)

unfoldable pub refresh_done :
    Env → Time → Account → Refreshed → World × CredentialResult → World × CredentialResult
unfolding refresh_refused
refresh_done env now a (refresh_failed e) (w, r) = refresh_refused env now e a (w, r)
refresh_done env now a (refreshed b) (w, r) = count_renewed r (save env (mark_ready now now b) w)

unfoldable pub refresh_expiring_one :
    Env → Time → Account → World × CredentialResult → World × CredentialResult
unfolding refresh_done
refresh_expiring_one env now a acc = refresh_done env now a (env.refresh a) acc

unfoldable pub expiring_batch : Time → Duration → World → List Account × ℕ
expiring_batch now lead w =
    let ahead : Duration = if lead == 0 then 90 * minute else lead in
    batch max_proactive_refreshes_per_tick expiring_before
      (candidates (expiring (now + ahead)) (listed w.store))

-- `RefreshExpiring`
unfoldable pub refresh_expiring : Env → Time → Duration → World → World × Option CredentialResult
unfolding refresh_expiring_one expiring_batch over_batch
refresh_expiring env now lead w =
    let (t, r) = over_batch env (refresh_expiring_one env now) (expiring_batch now lead w) w in
    if env.can_list then (t, some r) else (w, none)

abbrev pub max_auth_refreshes_per_tick : ℕ
max_auth_refreshes_per_tick = 256

pub record Sorting : Type 0 where
  pub world : World
  pub result : CredentialResult
  pub found : List Account

abbrev pub count_revoked : Sorting → World × Bool → Sorting
count_revoked s (w, true) = record s { world = w; result = one_revoked s.result }
count_revoked s (w, false) = record s { world = w; result = one_failed s.result }

-- One round of the first loop of `RecoverCredentials`.
unfoldable pub sort_out_one : Env → Time → Account → Sorting → Sorting
sort_out_one env now a s =
    let skip = record s { result = record s.result { skipped = s.result.skipped + 1 } } in
    if not (is_unavailable a.pool)
      || (not (reason_is a.unavailable_reason auth) || is_empty a.refresh_token)
    then skip
    else if is_unrecoverable_auth_code a.last_error_code
    then count_revoked s (save env (isolate_revoked_account now a) s.world)
    else if still_waits now a
    then skip
    else record s { found = s.found ++ a ∷ [] }

-- The account of a refresh that succeeded, by what the validator says, and its count.
unfoldable pub revalidated :
    Time → Validation → Account → CredentialResult → Account × CredentialResult
revalidated now v b r =
    if v.broken
    then (
      mark_unavailable now auth (now + auth_validation_backoff) (codes "validation-failed") now b,
      one_failed r,
    )
    else if reason_is v.reason no_reason
    then (recover_validated now now b, record r { recovered = r.recovered + 1 })
    else if is_unrecoverable_auth_code v.error_code
    then (disable_revoked now now v.error_code b, one_revoked r)
    else (
      mark_unavailable now v.reason (credential_retry_at v.reason now) v.error_code now b,
      one_failed r,
    )

unfoldable pub credential_done :
    Env → Time → Account → Refreshed → World × CredentialResult → World × CredentialResult
unfolding refresh_refused revalidated
credential_done env now a (refresh_failed e) (w, r) = refresh_refused env now e a (w, r)
credential_done env now a (refreshed b) (w, r) =
    let (c, t) = revalidated now (env.validate b) b r in or_failed t (save env c w)

unfoldable pub recover_credential_one :
    Env → Time → Account → World × CredentialResult → World × CredentialResult
unfolding credential_done
recover_credential_one env now a acc = credential_done env now a (env.refresh a) acc

-- The rest of `RecoverCredentials`, after its first loop.
unfoldable pub recover_sorted : Env → Time → Sorting → World × CredentialResult
unfolding recover_credential_one
recover_sorted env now s =
    let (chosen, skipped) =
      batch max_auth_refreshes_per_tick auth_before (s.found, s.result.skipped) in
    let start = record s.result { skipped = skipped } in
    if is_none chosen
    then (s.world, start)
    else walk (recover_credential_one env now) chosen (wait env chosen s.world, start)

-- `RecoverCredentials`
unfoldable pub recover_credentials : Env → Time → World → World × Option CredentialResult
unfolding sort_out_one recover_sorted
recover_credentials env now w =
    let sorted =
      walk (sort_out_one env now) (listed w.store)
        (record { world = w; result = no_credential; found = [] }) in
    let (t, r) = recover_sorted env now sorted in if env.can_list then (t, some r) else (w, none)
