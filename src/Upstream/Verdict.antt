-- ===== src/Upstream/Verdict.antt =====
-- What `ClassifyFailure` makes of a response (classifier.go).
use grok2api.Prelude.{
  ℕ, ◌≤◌, ◌≡◌, ◌≢◌, ◌⊎◌, refl, Bool, true, false, ◌||◌, Option, none, some, arith, Text, codes,
  is_empty, to_lower,
}
use grok2api.Account.{no_reason, quota, cooldown, validating, auth}
use grok2api.Upstream.Json.{Fields}
use grok2api.Upstream.Headers.{
  Header, RateLimitUsage, no_usage, present, usage_actual, usage_limit, exhausted, with_requests,
  with_tokens, parse_rate_limit_headers,
}
use grok2api.Upstream.Numbers.{header_int64}
use grok2api.Upstream.Classify.{
  or_else, contains_any, hard_markers, joined, is_quota_failure, is_transient_chat_denied,
  is_auth_failure, classify, extract_failure_metadata, classify_failure,
}

or_else_named : (a b : Text) → is_empty b ≡ false → is_empty (or_else a b) ≡ false
or_else_named a b h = ground arith

transient_status :
    (status : ℕ) (code message : Text)
    → is_transient_chat_denied status code message ≡ true
    → ((status ≡ 401) ⊎ (status ≡ 403)) × (contains_any (joined code message) hard_markers ≡ false)
unfolding is_transient_chat_denied
transient_status status code message h = (ground arith, ground arith)

pub auth_status :
    (status : ℕ) (code message : Text)
    → (status ≡ 401) ⊎ (status ≡ 403)
    → is_quota_failure status code message ≡ false
    → is_transient_chat_denied status code message ≡ false
    → is_auth_failure status code message ≡ true
unfolding is_auth_failure
auth_status status code message h q t = ground arith

-- The verdict on an error response. A 429 is about the quota or a rate limit. A 401 or 403 is about
-- the quota, about the credential, or a denial that passes; never a plain request error. A denial
-- counts as passing only for a 401 or 403 whose text has none of the markers of a dead credential.
-- A failure that has a reason has an error code.
pub classify_failure_lem :
    (status : ℕ) (body : Text) (parsed : Option Fields)
    → let f = classify_failure status body parsed in
      let text = extract_failure_metadata body parsed in
      (status ≡ 429 → (f.reason ≡ quota) ⊎ (f.reason ≡ cooldown))
      × ((status ≡ 401) ⊎ (status ≡ 403)
          → (f.reason ≡ quota) ⊎ ((f.reason ≡ auth) ⊎ (f.reason ≡ validating)))
      × (f.reason ≡ validating
          → ((status ≡ 401) ⊎ (status ≡ 403))
            × (contains_any (joined (to_lower text.0) (to_lower text.1)) hard_markers ≡ false))
      × (f.reason ≢ no_reason → is_empty f.code ≡ false)
unfolding classify_failure classify is_empty
classify_failure_lem status body parsed = by_text (extract_failure_metadata body parsed)
  where
    by_text :
        (text : Text × Text)
        → let f = classify status text.0 text.1 in
          (status ≡ 429 → (f.reason ≡ quota) ⊎ (f.reason ≡ cooldown))
          × ((status ≡ 401) ⊎ (status ≡ 403)
              → (f.reason ≡ quota) ⊎ ((f.reason ≡ auth) ⊎ (f.reason ≡ validating)))
          × (f.reason ≡ validating
              → ((status ≡ 401) ⊎ (status ≡ 403))
                × (contains_any (joined (to_lower text.0) (to_lower text.1)) hard_markers ≡ false))
          × (f.reason ≢ no_reason → is_empty f.code ≡ false)
    by_text (code, message) = (
      λ h. ground arith,
      λ h. ground (arith, auth_status status (to_lower code) (to_lower message) h),
      λ h. ground (arith, transient_status status (to_lower code) (to_lower message)),
      λ h. ground arith,
    )

-- Whether a counter of the headers is complete.
abbrev pub pair : Option ℕ → Option ℕ → Bool
pair (some limit) (some remaining) = true
pair _ _ = false

-- The limit and the remainder of a counter, if both of its headers hold a number.
abbrev pub tokens_pair : Header → Bool
tokens_pair header =
    pair (header_int64 (header (codes "x-ratelimit-limit-tokens")))
      (header_int64 (header (codes "x-ratelimit-remaining-tokens")))

abbrev pub requests_pair : Header → Bool
requests_pair header =
    pair (header_int64 (header (codes "x-ratelimit-limit-requests")))
      (header_int64 (header (codes "x-ratelimit-remaining-requests")))

usage_pairs :
    (a b c d : Option ℕ)
    → let u = with_tokens c d (with_requests a b no_usage) in
      (u.has_tokens ≡ pair c d) × (u.has_requests ≡ pair a b)
unfolding with_tokens with_requests
usage_pairs none b none d = (refl, refl)
usage_pairs none b (some c) none = (refl, refl)
usage_pairs none b (some c) (some d) = (refl, refl)
usage_pairs (some a) none none d = (refl, refl)
usage_pairs (some a) none (some c) none = (refl, refl)
usage_pairs (some a) none (some c) (some d) = (refl, refl)
usage_pairs (some a) (some b) none d = (refl, refl)
usage_pairs (some a) (some b) (some c) none = (refl, refl)
usage_pairs (some a) (some b) (some c) (some d) = (refl, refl)

-- Headers show usage exactly when both headers of a counter hold a number: half a pair, or a header
-- that is no number, never reports usage nor exhaustion. What they report as used is at most the
-- limit that they report.
pub parse_rate_limit_headers_lem :
    (header : Header)
    → let u = parse_rate_limit_headers header in
      (present u ≡ (requests_pair header || tokens_pair header))
      × (exhausted u ≡ true → present u ≡ true)
      × (usage_actual u ≤ usage_limit u)
unfolding parse_rate_limit_headers present exhausted usage_actual usage_limit
parse_rate_limit_headers_lem header = by_usage (parse_rate_limit_headers header) (
    usage_pairs (header_int64 (header (codes "x-ratelimit-limit-requests")))
      (header_int64 (header (codes "x-ratelimit-remaining-requests")))
      (header_int64 (header (codes "x-ratelimit-limit-tokens")))
      (header_int64 (header (codes "x-ratelimit-remaining-tokens"))))
  where
    by_usage :
        (u : RateLimitUsage)
        → (u.has_tokens ≡ tokens_pair header) × (u.has_requests ≡ requests_pair header)
        → (present u ≡ (requests_pair header || tokens_pair header))
          × (exhausted u ≡ true → present u ≡ true)
          × (usage_actual u ≤ usage_limit u)
    by_usage u h = (cc, λ e. ground arith, ground arith)
