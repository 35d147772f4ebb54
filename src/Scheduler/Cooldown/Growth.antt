-- ===== src/Scheduler/Cooldown/Growth.antt =====
-- How a cooldown grows with the failure streak (`CooldownForStreak`).
use native.Mathlib.Nat.{pow-suc}
use grok2api.Prelude.{
  ℕ, zero, suc, ◌+◌, ◌-◌, ◌*◌, ◌^◌, ◌≤◌, ◌≡◌, ap, ◌∙◌, arith, ltb, ltb→lt, ◌==◌, if◌then◌else◌,
  Duration, second, hour, Bool-cases, inl, inr,
}
use grok2api.Scheduler.Cooldown.{doublings, cooldown_for_streak, max_fail_streak_cap}

-- The source's guards on its two arguments.
abbrev pub base_of : Duration → Duration
base_of base = if base == 0 then second else base

abbrev capped : ℕ → ℕ
capped streak = if ltb max_fail_streak_cap streak then max_fail_streak_cap else streak

doublings-ge : (r : ℕ) (c : Duration) → c ≤ doublings r c
unfolding doublings
doublings-ge zero c = omega arith
doublings-ge (suc r) c = ground (arith, doublings-ge r (c * 2))

doublings-le : (r : ℕ) (c : Duration) → c ≤ 2 * hour → doublings r c ≤ 2 * hour
unfolding doublings
doublings-le zero c h = h
doublings-le (suc r) c h = ground (arith, doublings-le r (c * 2))

doublings_mono : (r : ℕ) (c : Duration) → doublings r c ≤ doublings (suc r) c
unfolding doublings
doublings_mono zero c = ground arith
doublings_mono (suc r) c = ground (arith, doublings_mono r (c * 2))

le-mul_pow : (c : ℕ) (r : ℕ) → c ≤ c * 2 ^ r
le-mul_pow c zero = omega arith
le-mul_pow c (suc r) = omega (arith, ap (λ (t : ℕ). c * t) (pow-suc 2 r), le-mul_pow c r)

doublings-exact : (r : ℕ) (c : Duration) → c * 2 ^ r ≤ 2 * hour → doublings r c ≡ c * 2 ^ r
unfolding doublings
doublings-exact zero c h = omega arith
doublings-exact (suc r) c h = elim (Bool-cases (ltb hour c)) [
  | inl long ↦ absurd (omega (arith, grown, le-mul_pow c r, ltb→lt hour c long))
  | inr short ↦ rw short (doublings-exact r (c * 2) (omega (arith, grown)) ∙ omega (arith, grown))
]
  where
    grown : c * 2 ^ suc r ≡ c * (2 ^ r * 2)
    grown = ap (λ (t : ℕ). c * t) (pow-suc 2 r)

-- The cooldown is never shorter than the base, does not pass two hours for a base of up to two
-- hours, and does not shrink as the streak grows.
pub cooldown_bounds :
    (base : Duration) (streak : ℕ)
    → (base_of base ≤ cooldown_for_streak base streak)
      × (base_of base ≤ 2 * hour → cooldown_for_streak base streak ≤ 2 * hour)
      × (cooldown_for_streak base streak ≤ cooldown_for_streak base (streak + 1))
unfolding cooldown_for_streak
cooldown_bounds base streak = (
  ground (arith, doublings-ge (capped streak - 1) (base_of base)),
  λ h. ground (arith, doublings-le (capped streak - 1) (base_of base)),
  grows streak,
)
  where
    grows : (n : ℕ) → cooldown_for_streak base n ≤ cooldown_for_streak base (n + 1)
    grows zero = ground arith
    grows (suc zero) = doublings-ge 1 (base_of base)
    grows (suc (suc zero)) = doublings_mono 1 (base_of base)
    grows (suc (suc (suc zero))) = doublings_mono 2 (base_of base)
    grows (suc (suc (suc (suc zero)))) = doublings_mono 3 (base_of base)
    grows (suc (suc (suc (suc (suc zero))))) = doublings_mono 4 (base_of base)
    grows (suc (suc (suc (suc (suc (suc n)))))) = ground arith

-- While it stays within two hours, the cooldown of the streak n + 1 is the base times 2 ^ n, and
-- from the sixth failure on it is that of the sixth.
pub cooldown_exact :
    (base : Duration) (n : ℕ)
    → (n ≤ 5
        → base_of base * 2 ^ n ≤ 2 * hour
        → cooldown_for_streak base (n + 1) ≡ base_of base * 2 ^ n)
      × (5 ≤ n → cooldown_for_streak base (n + 1) ≡ cooldown_for_streak base 6)
unfolding cooldown_for_streak
cooldown_exact base n = (
  λ h k. ground (arith, doublings-exact n (base_of base) k, capped_within n h),
  λ h. ground (arith, capped_above n h),
)
  where
    capped_within : (n : ℕ) → n ≤ 5 → capped (n + 1) - 1 ≡ n
    capped_within n h = ground arith

    capped_above : (n : ℕ) → 5 ≤ n → capped (n + 1) ≡ 6
    capped_above n h = ground arith
