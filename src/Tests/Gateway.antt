-- ===== src/Tests/Gateway.antt =====
-- The theorems on the gateway at concrete inputs.
use grok2api.Prelude.{
  ℕ, ◌+◌, ◌*◌, ◌-◌, ◌<◌, ◌≤◌, ◌≡◌, ◌≢◌, ◌⊎◌, ltb, if◌then◌else◌, refl, true, false, none, pos,
  arith, codes, Duration,
}
use grok2api.Account.{no_reason}
use grok2api.Scheduler.Accounting.{load}
use grok2api.Upstream.Numbers.{parse_retry_after}
use grok2api.Upstream.Classify.{classify_failure}
use grok2api.Gateway.State.{new_gateway}
use grok2api.Gateway.Retry.{should_rotate, retry_at_for}
use grok2api.Gateway.Retry.Bounds.{Costs, retry_at_for_bounds}
use grok2api.Gateway.Request.{Round, request}
use grok2api.Gateway.Leases.Rounds.{kept_on}
use grok2api.Gateway.Leases.Whole.{request-load}
use grok2api.Gateway.Circuit.{classify_failure-should_rotate, request_attempts}
use grok2api.Tests.Fixtures.{now, no_header, no_date, gateway, answered}

-- The first account is out of tokens, the next one serves.
request-load_example :
    load
      (codes "high")
      (request no_date (λ i. answered (429 - 229 * i)) now now (codes "k") false gateway).0.sched
    ≡ load (codes "high") gateway.sched
      + kept_on
          (request no_date (λ i. answered (429 - 229 * i)) now now (codes "k") false gateway).1
          (codes "high")
request-load_example =
    request-load no_date (λ i. answered (429 - 229 * i)) now now (codes "k") false (codes "high")
      gateway (λ i. record { waiting = tt; answering = λ s j. refl })

classify_failure-should_rotate_example :
    let f = classify_failure 429 (codes "{}") none in
    (should_rotate f ≡ true → f.reason ≢ no_reason)
    × (should_rotate f ≡ false → f.reason ≡ no_reason)
    × ((◌≡◌ {A = ℕ} 429 401) ⊎ ((◌≡◌ {A = ℕ} 429 403) ⊎ (◌≡◌ {A = ℕ} 429 429))
        → should_rotate f ≡ true)
classify_failure-should_rotate_example = classify_failure-should_rotate 429 (codes "{}") none

retry_at_for_bounds_example :
    let f = classify_failure 429 (codes "{}") none in
    let at = retry_at_for no_date now f no_header 2 gateway in
    (d : Duration) × Costs gateway 2 f d
    × (now + d ≤ at)
    × ((at ≡ now + d)
        ⊎ (parse_retry_after no_date now (no_header (codes "Retry-After")) now ≡ pos (at - now)))
retry_at_for_bounds_example =
    retry_at_for_bounds no_date now (classify_failure 429 (codes "{}") none) no_header 2 gateway

-- From the fourth round on, the upstream would fail.
abbrev three_good : ℕ → Round
three_good i = if ltb i 3 then answered 200 else answered 500

within_three : (i : ℕ) → i < 3 → answered 200 ≡ three_good i
within_three i h = ground arith

request_attempts_example :
    request no_date (λ i. answered 200) now now (codes "k") false gateway
    ≡ request no_date three_good now now (codes "k") false gateway
unfolding new_gateway
request_attempts_example =
    request_attempts no_date (λ i. answered 200) three_good now now (codes "k") false gateway
      (λ i r m. within_three i m)
