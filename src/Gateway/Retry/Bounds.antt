-- ===== src/Gateway/Retry/Bounds.antt =====
-- How long a failure keeps an account out (gateway.go, `retryAtFor`).
use grok2api.Prelude.{
  if◌then◌else◌, ltb, ℕ, zero, suc, subst, ◌∙◌, ◌^◌, ◌+◌, ◌-◌, ◌*◌, ◌≤◌, ◌<◌, ◌≡◌, ◌≢◌, ◌⊎◌, refl,
  true, false, Option, arith, Text, codes, Time, Duration, second, hour, ℤ, pos, negsuc, inl, inr,
}
use grok2api.Account.{Reason, no_reason, quota, auth, cooldown, validating, disabled}
use grok2api.Scheduler.Cooldown.{cooldown_for_streak}
use grok2api.Scheduler.Cooldown.Growth.{base_of, cooldown_bounds, cooldown_exact}
use grok2api.Upstream.Headers.{Header}
use grok2api.Upstream.Numbers.{parse_retry_after}
use grok2api.Upstream.Classify.{
  FailureKind, by_quota, rate_limit, by_auth, by_request, by_upstream, Failure,
}
use grok2api.Gateway.State.{Gateway}
use grok2api.Gateway.Retry.{is_quota, is_validating, or_default, retry_base, longer, retry_at_for}

-- A duration is that of a setting, or the default of a setting that is 0.
abbrev pub IsSetTo : Duration → Duration → Duration → Type 0
IsSetTo setting default d = ((0 < setting) × (d ≡ setting)) ⊎ ((setting ≡ 0) × (d ≡ default))

-- The failures in a row that count, after the first and up to the sixth.
abbrev pub steps : ℕ → ℕ
steps streak = (if ltb 6 streak then 6 else streak) - 1

-- A duration is that of a setting, 45 seconds by default, doubled for each failure in a row that
-- counts; where that is past two hours, it is at least the setting's, and at most two hours unless the
-- setting is longer.
pub record IsGrown (setting : Duration) (streak : ℕ) (d : Duration) : Type 0 where
  pub start : Duration
  pub set : IsSetTo setting (45 * second) start
  pub least : start ≤ d
  pub grows : (2 * hour < start * 2 ^ steps streak) ⊎ (d ≡ start * 2 ^ steps streak)
  pub most : (2 * hour < start) ⊎ (d ≤ 2 * hour)

-- What a failure costs an account by itself: the quota's setting, a day by default, when it is out of
-- quota, however many failures came before; else a cooldown that grows with the failures in a row.
pub data Costs (g : Gateway) (streak : ℕ) (f : Failure) (d : Duration) : Type 0 where
  quota_window : f.kind ≡ by_quota → IsSetTo g.quota_retry (24 * hour) d → Costs g streak f d
  validation :
      f.kind ≢ by_quota
      → f.reason ≡ validating
      → IsGrown g.validating_retry streak d
      → Costs g streak f d
  cooling :
      f.kind ≢ by_quota → f.reason ≢ validating → IsGrown g.rate_retry streak d → Costs g streak f d

is_quota-cases :
    (k : FailureKind)
    → ((is_quota k ≡ true) × (k ≡ by_quota)) ⊎ ((is_quota k ≡ false) × (k ≢ by_quota))
is_quota-cases by_quota = inl (refl, refl)
is_quota-cases rate_limit = inr (refl, λ e. cc)
is_quota-cases by_auth = inr (refl, λ e. cc)
is_quota-cases by_request = inr (refl, λ e. cc)
is_quota-cases by_upstream = inr (refl, λ e. cc)

is_validating-cases :
    (r : Reason)
    → ((is_validating r ≡ true) × (r ≡ validating)) ⊎ ((is_validating r ≡ false) × (r ≢ validating))
is_validating-cases no_reason = inr (refl, λ e. cc)
is_validating-cases quota = inr (refl, λ e. cc)
is_validating-cases auth = inr (refl, λ e. cc)
is_validating-cases cooldown = inr (refl, λ e. cc)
is_validating-cases validating = inl (refl, refl)
is_validating-cases disabled = inr (refl, λ e. cc)

le-cases : (m n : ℕ) → (m ≤ n) ⊎ (n < m)
le-cases m n = omega arith

or_default-IsSetTo : (s default : Duration) → IsSetTo s default (or_default s default)
or_default-IsSetTo s default = ground arith

abbrev Doubled : Duration → ℕ → Type 0
Doubled base streak =
    (2 * hour < base_of base * 2 ^ steps streak)
    ⊎ (cooldown_for_streak base streak ≡ base_of base * 2 ^ steps streak)

-- The exponent of the streak n + 1 is n up to the sixth, and 5 from then on.
steps-suc : (n : ℕ) → (n ≤ 5 → steps (n + 1) ≡ n) × (5 ≤ n → steps (n + 1) ≡ 5)
steps-suc n = (λ h. ground arith, λ h. ground arith)

below : (base : Duration) (n : ℕ) → n ≤ 5 → Doubled base (n + 1)
below base n h = elim (le-cases (base_of base * 2 ^ n) (2 * hour)) [
  | inl k ↦ inr (rw ((steps-suc n).0 h) ((cooldown_exact base n).0 h k))
  | inr k ↦ inl (rw ((steps-suc n).0 h) k)
]

above : (base : Duration) (n : ℕ) → 5 ≤ n → Doubled base (n + 1)
above base n h = elim (below base 5 (omega arith)) [
  | inl k ↦ inl (rw ((steps-suc n).1 h) k)
  | inr k ↦ inr (rw ((steps-suc n).1 h) ((cooldown_exact base n).1 h ∙ k))
]

cooldown-Doubled : (base : Duration) (streak : ℕ) → Doubled base streak
unfolding cooldown_for_streak
cooldown-Doubled base zero = inr (ground arith)
cooldown-Doubled base (suc n) =
    subst (λ m. Doubled base m) next
      (elim (le-cases n 5) [ inl h ↦ below base n h | inr h ↦ above base n (omega (arith, h)) ])
  where
    next : n + 1 ≡ suc n
    next = omega arith

cooldown-IsGrown :
    (s : Duration) (streak : ℕ)
    → IsGrown s streak (cooldown_for_streak (or_default s (45 * second)) streak)
cooldown-IsGrown s streak =
    let b : Duration = or_default s (45 * second) in
    let t = cooldown_bounds b streak in
    let u = cooldown-Doubled b streak in
    let same : base_of b ≡ b = ground arith in
    record {
      start = b;
      set = or_default-IsSetTo s (45 * second);
      least = omega (arith, t.0, same);
      grows =
          subst
            (λ c.
              (2 * hour < c * 2 ^ steps streak)
              ⊎ (cooldown_for_streak b streak ≡ c * 2 ^ steps streak))
            same u;
      most = ground (arith, t.1, same);
    }

retry_base-Costs :
    (f : Failure) (streak : ℕ) (g : Gateway) → Costs g streak f (retry_base f streak g)
unfolding retry_base
retry_base-Costs f streak g = elim (is_quota-cases f.kind) [
  | inl (e, k) ↦ rw e (quota_window k (or_default-IsSetTo g.quota_retry (24 * hour)))
  | inr (e, k) ↦ elim (is_validating-cases f.reason) [
    | inl (r, v) ↦ rw (e, r) (validation k v (cooldown-IsGrown g.validating_retry streak))
    | inr (r, v) ↦ rw (e, r) (cooling k v (cooldown-IsGrown g.rate_retry streak))
  ]
]

-- A failure keeps the account out for what it costs by itself: for an account out of quota the
-- quota's setting or a day, whatever the streak; for one to be validated that setting, and else the
-- one of the rate limit, or 45 seconds, which doubles with each further failure in a row up to the
-- sixth as long as it stays within two hours; past that it is at least the setting, and at most two
-- hours unless the setting is longer. It is out for longer only when the response asks for exactly
-- that.
pub retry_at_for_bounds :
    (parse_time : Text → Option Time) (now : Time) (f : Failure) (header : Header) (streak : ℕ)
    (g : Gateway)
    → let at = retry_at_for parse_time now f header streak g in
      (d : Duration) × Costs g streak f d
      × (now + d ≤ at)
      × ((at ≡ now + d)
          ⊎ (parse_retry_after parse_time now (header (codes "Retry-After")) now ≡ pos (at - now)))
unfolding retry_at_for
retry_at_for_bounds parse_time now f header streak g =
    let h = by_header (parse_retry_after parse_time now (header (codes "Retry-After")) now) in
    (retry_base f streak g, retry_base-Costs f streak g, h.0, h.1)
  where
    by_header :
        (d : ℤ)
        → (now + retry_base f streak g ≤ now + longer d (retry_base f streak g))
          × ((now + longer d (retry_base f streak g) ≡ now + retry_base f streak g)
              ⊎ (d ≡ pos ((now + longer d (retry_base f streak g)) - now)))
    by_header (pos d) = ground arith
    by_header (negsuc d) = (omega arith, inl refl)
