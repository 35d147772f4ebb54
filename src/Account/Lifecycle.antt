-- ===== src/Account/Lifecycle.antt =====
-- The life of an account: what its methods do to it, and which put it back into service.
use grok2api.Prelude.{
  ℕ, ◌+◌, ◌≤◌, ◌<◌, ◌≡◌, ◌↔◌, refl, Bool, true, false, arith, if◌then◌else◌, Text, codes,
  text_eq→eq, text_eq_iff, Time, Duration, ℤ, is_empty,
}
use grok2api.Account.{
  Account, Reason, mark_unavailable, set_quota, ready, unavailable, auth, cooldown, disabled,
  available, mark_ready, park_known_exhausted, recover_cooldown, disable_by_admin, enable_by_admin,
  apply_refresh_failure, record_validation_failure, record_usage, recover_validated,
  recover_quota_window, disable_revoked, configure_runtime, revoked_retry,
}

-- The calls of the methods that change an account, each with its arguments; `apply` has the instant
-- of the call.
pub data Event : Type 0 where
  marked_ready cools_down recovers quota_window_ends admin_disables admin_enables : Event
  marked_unavailable : Reason → Time → Text → Event
  parks : Duration → Event
  uses sets_quota : ℕ → ℕ → Event
  refresh_fails : Bool → Duration → Event
  validation_fails : Text → Time → Event
  revoked : Text → Event
  configures : ℤ → ℤ → Event

unfoldable pub apply : Time → Event → Account → Account
unfolding park_known_exhausted recover_cooldown recover_validated recover_quota_window
    disable_by_admin enable_by_admin record_usage apply_refresh_failure record_validation_failure
    disable_revoked configure_runtime mark_ready mark_unavailable set_quota
apply now marked_ready a = mark_ready now now a
apply now (marked_unavailable why retry_at code) a = mark_unavailable now why retry_at code now a
apply now (sets_quota actual limit) a = set_quota actual limit a
apply now (parks d) a = (park_known_exhausted now now d a).0
apply now cools_down a = (recover_cooldown now now a).0
apply now recovers a = recover_validated now now a
apply now quota_window_ends a = recover_quota_window now now a
apply now admin_disables a = disable_by_admin now now a
apply now admin_enables a = (enable_by_admin now now a).0
apply now (uses actual limit) a = record_usage now actual limit now a
apply now (refresh_fails permanent backoff) a = apply_refresh_failure now permanent now backoff a
apply now (validation_fails code retry_at) a = (record_validation_failure now code retry_at now a).0
apply now (revoked code) a = disable_revoked now now code a
apply now (configures p m) a = (configure_runtime now p m now a).0

-- The ways back into service. The first three are for the caller to decide.
pub data Returns (now : Time) (a : Account) : Event → Type 0 where
  by_caller : Returns now a marked_ready
  by_validation : Returns now a recovers
  by_window : Returns now a quota_window_ends
  by_deadline :
      a.unavailable_reason ≡ cooldown → 0 < a.retry_at → a.retry_at ≤ now → Returns now a cools_down
  by_admin :
      a.unavailable_reason ≡ disabled
      → a.last_error_code ≡ codes "admin-disabled"
      → Returns now a admin_enables

returned :
    (now : Time) (e : Event) (a : Account)
    → a.pool ≡ unavailable
    → (apply now e a).pool ≡ ready
    → Returns now a e
unfolding apply is_empty
returned now marked_ready a h k = by_caller
returned now (marked_unavailable why retry_at code) a h k = cc
returned now (sets_quota actual limit) a h k = ground arith
returned now (parks d) a h k = ground arith
returned now cools_down a h k = by_deadline (ground arith) (ground arith) (ground arith)
returned now recovers a h k = by_validation
returned now quota_window_ends a h k = by_window
returned now admin_disables a h k = cc
returned now admin_enables a h k =
    by_admin (ground arith) (text_eq→eq a.last_error_code (codes "admin-disabled") (ground arith))
returned now (uses actual limit) a h k = ground arith
returned now (refresh_fails permanent backoff) a h k = ground arith
returned now (validation_fails code retry_at) a h k = ground arith
returned now (revoked code) a h k = ground arith
returned now (configures p m) a h k = ground arith

returns :
    (now : Time) (e : Event) (a : Account)
    → a.pool ≡ unavailable
    → Returns now a e
    → (apply now e a).pool ≡ ready
unfolding apply
returns now marked_ready a h by_caller = refl
returns now (marked_unavailable _ _ _) a h x = elim x [ ]
returns now (sets_quota _ _) a h x = elim x [ ]
returns now (parks _) a h x = elim x [ ]
returns now admin_disables a h x = elim x [ ]
returns now (uses _ _) a h x = elim x [ ]
returns now (refresh_fails _ _) a h x = elim x [ ]
returns now (validation_fails _ _) a h x = elim x [ ]
returns now (revoked _) a h x = elim x [ ]
returns now (configures _ _) a h x = elim x [ ]
returns now recovers a h by_validation = refl
returns now quota_window_ends a h by_window = refl
returns now cools_down a h (by_deadline r d t) = ground arith
returns now admin_enables a h (by_admin r c) =
    ground (arith, text_eq_iff a.last_error_code (codes "admin-disabled"))

-- Of all the methods of an account, these and no others put an unavailable one back into service:
-- MarkReady, RecoverValidated and RecoverQuotaWindow, whatever the account is out for, RecoverCooldown
-- exactly when it is a cooldown whose deadline is set and has passed, and EnableByAdmin exactly when
-- an administrator had disabled the account.
pub apply-Returns :
    (now : Time) (e : Event) (a : Account)
    → a.pool ≡ unavailable
    → ((apply now e a).pool ≡ ready) ↔ Returns now a e
apply-Returns now e a h = (returned now e a h, returns now e a h)

-- A failed refresh counts one failure and takes the account out: a permanent one for good (reason
-- `disabled`, for a year), a transient one for reason `auth` until the backoff has passed. In
-- either case the cooldown timer never promotes it.
pub apply_refresh_failure_lem :
    (now : Time) (permanent : Bool) (backoff : Duration) (a : Account) (later : Time)
    → let b = apply_refresh_failure now permanent now backoff a in
      (b.authentication_fails ≡ a.authentication_fails + 1)
      × (available b ≡ false)
      × (b.unavailable_reason ≡ (if permanent then disabled else auth))
      × (b.retry_at ≡ now + (if permanent then revoked_retry else backoff))
      × (recover_cooldown later later b ≡ (b, false))
unfolding apply_refresh_failure available recover_cooldown
apply_refresh_failure_lem now true backoff a later = ground arith
apply_refresh_failure_lem now false backoff a later = ground arith
