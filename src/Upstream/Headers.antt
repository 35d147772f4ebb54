-- ===== src/Upstream/Headers.antt =====
-- The free-tier counters of the response headers (classifier.go, `RateLimitUsage`). A counter that
-- `headerInt64` reads is not negative.
use grok2api.Prelude.{
  ℕ, ◌-◌, Bool, true, false, ◌&&◌, ◌||◌, Option, some, ltb, ◌==◌, if◌then◌else◌, Text, codes,
}
use grok2api.Upstream.Numbers.{header_int64}

pub record RateLimitUsage : Type 0 where
  pub limit_requests : ℕ
  pub remaining_requests : ℕ
  pub limit_tokens : ℕ
  pub remaining_tokens : ℕ
  pub has_requests : Bool
  pub has_tokens : Bool

unfoldable pub present : RateLimitUsage → Bool
present u = u.has_requests || u.has_tokens

-- A difference below 0 counts as 0, as the truncated subtraction does.
unfoldable pub usage_actual : RateLimitUsage → ℕ
usage_actual u =
    if u.has_tokens
    then u.limit_tokens - u.remaining_tokens
    else if u.has_requests
    then u.limit_requests - u.remaining_requests
    else 0

unfoldable pub usage_limit : RateLimitUsage → ℕ
usage_limit u =
    if u.has_tokens then u.limit_tokens else if u.has_requests then u.limit_requests else 0

unfoldable pub exhausted : RateLimitUsage → Bool
exhausted u =
    if u.has_tokens && (u.remaining_tokens == 0 && ltb 0 u.limit_tokens)
    then true
    else u.has_requests && (u.remaining_requests == 0 && ltb 0 u.limit_requests)

-- `http.Header.Get`: the value of a header, empty when it is missing.
abbrev pub Header : Type 0
Header = Text → Text

abbrev pub no_usage : RateLimitUsage
no_usage = record {
  limit_requests = 0;
  remaining_requests = 0;
  limit_tokens = 0;
  remaining_tokens = 0;
  has_requests = false;
  has_tokens = false;
}

-- Only a complete pair counts.
unfoldable pub with_requests : Option ℕ → Option ℕ → RateLimitUsage → RateLimitUsage
with_requests (some limit) (some remaining) u = record u {
  limit_requests = limit;
  remaining_requests = remaining;
  has_requests = true;
}
with_requests _ _ u = u

unfoldable pub with_tokens : Option ℕ → Option ℕ → RateLimitUsage → RateLimitUsage
with_tokens (some limit) (some remaining) u = record u {
  limit_tokens = limit;
  remaining_tokens = remaining;
  has_tokens = true;
}
with_tokens _ _ u = u

unfoldable pub parse_rate_limit_headers : Header → RateLimitUsage
unfolding with_requests with_tokens
parse_rate_limit_headers header =
    with_tokens (header_int64 (header (codes "x-ratelimit-limit-tokens")))
      (header_int64 (header (codes "x-ratelimit-remaining-tokens")))
      (with_requests (header_int64 (header (codes "x-ratelimit-limit-requests")))
        (header_int64 (header (codes "x-ratelimit-remaining-requests"))) no_usage)
