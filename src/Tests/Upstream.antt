-- ===== src/Tests/Upstream.antt =====
-- The theorems on the classifier at concrete inputs.
use grok2api.Prelude.{
  ℕ, ◌≤◌, ◌≡◌, ◌≢◌, ◌⊎◌, false, true, none, ◌||◌, codes, is_empty, to_lower, text_eq, if◌then◌else◌,
}
use grok2api.Account.{quota, cooldown, auth, validating, no_reason}
use grok2api.Upstream.Headers.{
  Header, present, exhausted, usage_actual, usage_limit, parse_rate_limit_headers,
}
use grok2api.Upstream.Classify.{
  contains_any, joined, hard_markers, classify_failure, extract_failure_metadata,
}
use grok2api.Upstream.Verdict.{
  requests_pair, tokens_pair, classify_failure_lem, parse_rate_limit_headers_lem,
}

classify_failure_lem_example :
    let f = classify_failure 403 (codes "denied") none in
    let text = extract_failure_metadata (codes "denied") none in
    (◌≡◌ {A = ℕ} 403 429 → (f.reason ≡ quota) ⊎ (f.reason ≡ cooldown))
    × ((◌≡◌ {A = ℕ} 403 401) ⊎ (◌≡◌ {A = ℕ} 403 403)
        → (f.reason ≡ quota) ⊎ ((f.reason ≡ auth) ⊎ (f.reason ≡ validating)))
    × (f.reason ≡ validating
        → ((◌≡◌ {A = ℕ} 403 401) ⊎ (◌≡◌ {A = ℕ} 403 403))
          × (contains_any (joined (to_lower text.0) (to_lower text.1)) hard_markers ≡ false))
    × (f.reason ≢ no_reason → is_empty f.code ≡ false)
classify_failure_lem_example = classify_failure_lem 403 (codes "denied") none

-- A pair of request counters, with none left, and half a pair of token counters.
abbrev used_up : Header
used_up name =
    if text_eq name (codes "x-ratelimit-limit-requests")
    then codes "40"
    else if text_eq name (codes "x-ratelimit-remaining-requests")
    then codes "0"
    else if text_eq name (codes "x-ratelimit-limit-tokens")
    then codes "9"
    else codes ""

parse_rate_limit_headers_lem_example :
    let u = parse_rate_limit_headers used_up in
    (present u ≡ (requests_pair used_up || tokens_pair used_up))
    × (exhausted u ≡ true → present u ≡ true)
    × (usage_actual u ≤ usage_limit u)
parse_rate_limit_headers_lem_example = parse_rate_limit_headers_lem used_up
