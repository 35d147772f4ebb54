-- ===== src/Recovery/Renewing.antt =====
-- What the rounds of the passes over parked and expiring credentials keep.
use grok2api.Prelude.{
  ◌≡◌, refl, Bool, true, false, not, ◌||◌, [], ◌∷◌, All, All-append, if◌then◌else◌, arith, is_empty,
  ◌+◌, Time,
}
use grok2api.Account.{
  Account, no_reason, auth, is_unavailable, disable_revoked, mark_unavailable, mark_ready,
  recover_validated, record_validation_failure, apply_refresh_failure,
}
use grok2api.Recovery.Base.{
  World, Env, Validation, Refreshed, refreshed, refresh_failed, RefreshError, save,
  is_unrecoverable_auth_code, fail_refresh,
}
use grok2api.Recovery.Batch.{still_waits, reason_is}
use grok2api.Recovery.Isolate.{isolate_revoked_account}
use grok2api.Recovery.Validating.{
  CredentialResult, or_failed, still_bad, validated_account, validating_due, recover_validating_one,
}
use grok2api.Recovery.Credentials.{
  refresh_refused, count_renewed, refresh_done, Sorting, count_revoked, sort_out_one, revalidated,
  credential_done,
}
use grok2api.Recovery.Keeping.{quarantined, Kept, other_reason, if-keeps}

module _ {κ μ} {env : Env} {Q : Account → Type κ} {P : World → Type μ} (kept : Kept env Q P) where
  or_failed-keeps : (r : CredentialResult) (x : World × Bool) → P x.0 → P (or_failed r x).0
  or_failed-keeps r (w, true) p = p
  or_failed-keeps r (w, false) p = p

  validated_account-id :
      (now : Time) (v : Validation) (a : Account) → (validated_account now v a).id ≡ a.id
  unfolding validated_account still_bad record_validation_failure mark_unavailable mark_ready
      recover_validated
  validated_account-id now v a = ground arith

  pub recover_validating_one-keeps :
      (now : Time) (a : Account) (s : World × CredentialResult)
      → Q a × (validating_due now a ≡ true)
      → P s.0
      → P (recover_validating_one env now a s).0
  unfolding recover_validating_one validating_due
  recover_validating_one-keeps now a (w, r) (q, due) p =
      if-keeps kept (env.validate a).broken _ _ (λ broken. saved)
        (λ answered.
          if-keeps kept (reason_is (env.validate a).reason no_reason) _ _ (λ good. saved)
            (λ bad. or_failed-keeps _ _ saved))
    where
      saved : P (save env (validated_account now (env.validate a) a) w).0
      saved =
          kept.saving _ w
            (kept.moving a _ (ground (arith, (other_reason a.unavailable_reason).1))
              (validated_account-id now (env.validate a) a) q)
            p

  fail_refresh-id : (e : RefreshError) (now : Time) (a : Account) → (fail_refresh e now a).id ≡ a.id
  unfolding fail_refresh apply_refresh_failure disable_revoked mark_unavailable
  fail_refresh-id e now a = ground arith

  refresh_refused-keeps :
      (now : Time) (e : RefreshError) (a : Account) (s : World × CredentialResult)
      → quarantined a ≡ false
      → Q a
      → P s.0
      → P (refresh_refused env now e a s).0
  unfolding refresh_refused
  refresh_refused-keeps now e a (w, r) g q p =
      or_failed-keeps _ _ (kept.saving _ w (kept.moving a _ g (fail_refresh-id e now a) q) p)

  count_renewed-keeps : (r : CredentialResult) (x : World × Bool) → P x.0 → P (count_renewed r x).0
  count_renewed-keeps r (w, true) p = p
  count_renewed-keeps r (w, false) p = p

  pub refresh_done-keeps :
      (now : Time) (a : Account) (s : World × CredentialResult) (o : Refreshed)
      → env.refresh a ≡ o
      → quarantined a ≡ false
      → Q a
      → P s.0
      → P (refresh_done env now a o s).0
  unfolding refresh_done mark_ready
  refresh_done-keeps now a (w, r) (refresh_failed e) o g q p =
      refresh_refused-keeps now e a (w, r) g q p
  refresh_done-keeps now a (w, r) (refreshed b) o g q p =
      count_renewed-keeps r _ (kept.saving _ w (kept.renewing a b _ g o refl q) p)

  revalidated-id :
      (now : Time) (v : Validation) (b : Account) (r : CredentialResult)
      → (revalidated now v b r).0.id ≡ b.id
  unfolding revalidated mark_unavailable mark_ready recover_validated disable_revoked
  revalidated-id now v b r = ground arith

  pub credential_done-keeps :
      (now : Time) (a : Account) (s : World × CredentialResult) (o : Refreshed)
      → env.refresh a ≡ o
      → quarantined a ≡ false
      → Q a
      → P s.0
      → P (credential_done env now a o s).0
  unfolding credential_done
  credential_done-keeps now a (w, r) (refresh_failed e) o g q p =
      refresh_refused-keeps now e a (w, r) g q p
  credential_done-keeps now a (w, r) (refreshed b) o g q p =
      or_failed-keeps _ _
        (kept.saving _ w (kept.renewing a b _ g o (revalidated-id now (env.validate b) b r) q) p)

  -- What the first loop of `RecoverCredentials` keeps.
  pub record Sorted (s : Sorting) : Type (κ ⊔ μ) where
    pub world : P s.world
    pub found : All (λ a. Q a × (quarantined a ≡ false)) s.found

  if-Sorted :
      (b : Bool) (x y : Sorting)
      → (b ≡ true → Sorted x)
      → (b ≡ false → Sorted y)
      → Sorted (if b then x else y)
  if-Sorted true x y f g = f refl
  if-Sorted false x y f g = g refl

  count_revoked-Sorted :
      (s : Sorting) (x : World × Bool)
      → P x.0
      → All (λ a. Q a × (quarantined a ≡ false)) s.found
      → Sorted (count_revoked s x)
  count_revoked-Sorted s (w, true) p h = record { world = p; found = h }
  count_revoked-Sorted s (w, false) p h = record { world = p; found = h }

  pub sort_out_one-keeps :
      (now : Time) (a : Account) (s : Sorting) → Q a → Sorted s → Sorted (sort_out_one env now a s)
  unfolding sort_out_one isolate_revoked_account disable_revoked mark_unavailable
  sort_out_one-keeps now a s q k =
      if-Sorted
        (not (is_unavailable a.pool)
          || (not (reason_is a.unavailable_reason auth) || is_empty a.refresh_token))
        _ _ (λ skip. skipped)
        (λ parked.
          if-Sorted (is_unrecoverable_auth_code a.last_error_code) _ _
            (λ dead.
              count_revoked-Sorted s _
                (kept.saving _ s.world (kept.moving a _ (ground arith) refl q) k.world) k.found)
            (λ alive.
              if-Sorted (still_waits now a) _ _ (λ waits. skipped)
                (λ due. record {
                  world = k.world;
                  found =
                      All-append _ s.found (a ∷ []) k.found
                        ((q, ground (arith, (other_reason a.unavailable_reason).2)), tt);
                })))
    where
      skipped : Sorted (record s { result = record s.result { skipped = s.result.skipped + 1 } })
      skipped = record { world = k.world; found = k.found }
