-- ===== src/Tests/Account.antt =====
-- The theorems on accounts at concrete inputs.
use grok2api.Prelude.{◌+◌, ◌≡◌, ◌↔◌, refl, false, if◌then◌else◌, minute, hour}
use grok2api.Account.{
  Account, ready, unavailable, auth, cooldown, disabled, available, recover_cooldown,
  apply_refresh_failure, revoked_retry,
}
use grok2api.Account.Lifecycle.{
  apply, Returns, cools_down, apply-Returns, apply_refresh_failure_lem,
}
use grok2api.Tests.Fixtures.{now, high}

-- An account that cools down and is due an hour after the start of the clock.
abbrev cooling : Account
cooling = record high { pool = unavailable; unavailable_reason = cooldown; retry_at = hour }

apply-Returns_example :
    ((apply now cools_down cooling).pool ≡ ready) ↔ Returns now cooling cools_down
apply-Returns_example = apply-Returns now cools_down cooling refl

apply_refresh_failure_lem_example :
    let b = apply_refresh_failure now false now minute high in
    (b.authentication_fails ≡ high.authentication_fails + 1)
    × (available b ≡ false)
    × (b.unavailable_reason ≡ (if false then disabled else auth))
    × (b.retry_at ≡ now + (if false then revoked_retry else minute))
    × (recover_cooldown (now + hour) (now + hour) b ≡ (b, false))
apply_refresh_failure_lem_example = apply_refresh_failure_lem now false minute high (now + hour)
