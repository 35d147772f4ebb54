-- ===== src/Recovery/Validating.antt =====
-- Accounts whose credential is tried again (`RecoverValidating`).
use grok2api.Prelude.{
  ℕ, ◌+◌, ◌*◌, Bool, true, false, not, ◌&&◌, ◌||◌, Option, none, some, List, [], ◌∷◌, leb,
  if◌then◌else◌, Text, codes, is_empty, Time, hour, second,
}
use grok2api.Account.{
  Account, Reason, no_reason, quota, auth, cooldown, validating, disabled, is_unavailable,
  mark_unavailable, recover_validated, record_validation_failure,
}
use grok2api.Recovery.Base.{
  World, Env, Validation, listed, save, walk, wait, validating_backoff, auth_transient_backoff,
  next_quota_retry,
}
use grok2api.Recovery.Batch.{reason_is, still_waits, candidates, batch, validating_before}

pub record CredentialResult : Type 0 where
  pub recovered : ℕ
  pub failed : ℕ
  pub skipped : ℕ
  pub renewed : ℕ
  pub revoked : ℕ

abbrev pub no_credential : CredentialResult
no_credential = record { recovered = 0; failed = 0; skipped = 0; renewed = 0; revoked = 0 }

abbrev pub one_failed : CredentialResult → CredentialResult
one_failed r = record r { failed = r.failed + 1 }

-- A failed write is one more failure.
abbrev pub or_failed : CredentialResult → World × Bool → World × CredentialResult
or_failed r (w, true) = (w, r)
or_failed r (w, false) = (w, one_failed r)

-- The reason as the text of the source.
abbrev pub reason_text : Reason → Text
reason_text no_reason = codes ""
reason_text quota = codes "quota"
reason_text auth = codes "auth"
reason_text cooldown = codes "cooldown"
reason_text validating = codes "validating"
reason_text disabled = codes "disabled"

abbrev pub max_validating_probes_per_tick : ℕ
max_validating_probes_per_tick = 128

abbrev pub max_validating_fails : ℕ
max_validating_fails = 12

unfoldable pub validating_due : Time → Account → Bool
validating_due now a =
    is_unavailable a.pool && (reason_is a.unavailable_reason validating && not (still_waits now a))

-- An account that is still bad: the `switch` on the reason.
unfoldable pub still_bad : Time → Validation → Account → Account
still_bad now v a =
    let code = if is_empty v.error_code then reason_text v.reason else v.error_code in
    let (b, failures) = record_validation_failure now code a.retry_at now a in
    if reason_is v.reason quota
    then mark_unavailable now quota (next_quota_retry now (24 * hour)) code now b
    else if reason_is v.reason cooldown
    then mark_unavailable now cooldown (now + 45 * second) code now b
    else if reason_is v.reason auth || leb max_validating_fails failures
    then mark_unavailable now auth (now + auth_transient_backoff) code now b
    else mark_unavailable now validating (now + validating_backoff) code now b

-- The account of an outcome.
unfoldable pub validated_account : Time → Validation → Account → Account
unfolding still_bad
validated_account now v a =
    if v.broken
    then (record_validation_failure now (codes "validation-failed") (now + validating_backoff) now
        a).0
    else if reason_is v.reason no_reason
    then recover_validated now now a
    else still_bad now v a

-- One outcome. Only a write of an account that is still bad counts when it fails.
unfoldable pub recover_validating_one :
    Env → Time → Account → World × CredentialResult → World × CredentialResult
recover_validating_one env now a (w, r) =
    let v = env.validate a in
    let saved = save env (validated_account now v a) w in
    if v.broken
    then (saved.0, one_failed r)
    else if reason_is v.reason no_reason
    then (saved.0, record r { recovered = r.recovered + 1 })
    else or_failed (one_failed r) saved

unfoldable pub validating_batch : Time → World → List Account × ℕ
validating_batch now w =
    batch max_validating_probes_per_tick validating_before
      (candidates (validating_due now) (listed w.store))

abbrev pub is_none : List Account → Bool
is_none [] = true
is_none (a ∷ items) = false

-- What is done with the accounts that are chosen: nobody waits when there are none.
unfoldable pub over_batch :
    Env
    → (Account → World × CredentialResult → World × CredentialResult)
    → List Account × ℕ
    → World
    → World × CredentialResult
over_batch env body (chosen, skipped) w =
    let start = record no_credential { skipped = skipped } in
    if is_none chosen then (w, start) else walk body chosen (wait env chosen w, start)

-- `RecoverValidating`
unfoldable pub recover_validating : Env → Time → World → World × Option CredentialResult
unfolding recover_validating_one validating_batch over_batch
recover_validating env now w =
    let (t, r) = over_batch env (recover_validating_one env now) (validating_batch now w) w in
    if env.can_list then (t, some r) else (w, none)
