-- ===== src/Gateway/Retry.antt =====
-- Whether a failure moves the request to another account, and until when the account is out
-- (gateway.go, `shouldRotateAccount`, `retryAtFor`).
pub mod Bounds
use grok2api.Prelude.{
  ℕ, ◌+◌, ◌*◌, Bool, true, false, ltb, ◌==◌, if◌then◌else◌, Option, Text, codes, Time, Duration,
  second, hour, ℤ, pos, negsuc,
}
use grok2api.Account.{Reason, no_reason, cooldown, validating}
use grok2api.Scheduler.Cooldown.{cooldown_for_streak}
use grok2api.Upstream.Headers.{Header, parse_rate_limit_headers, present, usage_actual, usage_limit}
use grok2api.Upstream.Numbers.{parse_retry_after}
use grok2api.Upstream.Classify.{
  FailureKind, by_quota, rate_limit, by_auth, by_request, by_upstream, Failure,
}
use grok2api.Gateway.State.{Gateway}

abbrev pub is_validating : Reason → Bool
is_validating validating = true
is_validating _ = false

abbrev pub is_quota : FailureKind → Bool
is_quota by_quota = true
is_quota _ = false

unfoldable pub rotates : FailureKind → Reason → Bool
rotates by_quota r = true
rotates rate_limit r = true
rotates by_auth r = true
rotates by_request r = is_validating r
rotates by_upstream r = is_validating r

-- `shouldRotateAccount`
unfoldable pub should_rotate : Failure → Bool
unfolding rotates
should_rotate f = rotates f.kind f.reason

-- The counters of the headers stand in for those of the body when it has no limit.
unfoldable pub with_header_usage : Header → Failure → Failure
with_header_usage header f =
    let usage = parse_rate_limit_headers header in
    if is_quota f.kind
    then (if f.quota_limit == 0
        then (if present usage
            then record f { quota_actual = usage_actual usage; quota_limit = usage_limit usage }
            else f)
        else f)
    else f

abbrev pub or_default : Duration → Duration → Duration
or_default d default = if d == 0 then default else d

unfoldable pub retry_base : Failure → ℕ → Gateway → Duration
retry_base f streak g =
    if is_quota f.kind
    then or_default g.quota_retry (24 * hour)
    else if is_validating f.reason
    then cooldown_for_streak (or_default g.validating_retry (45 * second)) streak
    else cooldown_for_streak (or_default g.rate_retry (45 * second)) streak

abbrev pub longer : ℤ → Duration → Duration
longer (pos d) base = if ltb base d then d else base
longer (negsuc d) base = base

-- `retryAtFor`; `parse_time` is `http.ParseTime`.
unfoldable pub retry_at_for : (Text → Option Time) → Time → Failure → Header → ℕ → Gateway → Time
unfolding retry_base
retry_at_for parse_time now f header streak g =
    now
    + longer (parse_retry_after parse_time now (header (codes "Retry-After")) now)
        (retry_base f streak g)

-- A failure with no reason parks the account as one that cools down.
unfoldable pub park_reason : Reason → Reason
park_reason no_reason = cooldown
park_reason r = r
