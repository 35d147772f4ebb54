-- ===== src/Scheduler/Status/Reasons.antt =====
-- What the failure of a selection tells the caller.
use grok2api.Prelude.{
  ℕ, ◌+◌, ◌≤◌, ◌<◌, ◌≡◌, ◌⊎◌, some, [], ◌∷◌, arith, length, Text, lookup, text_eq, Time, second,
  Bool-cases, inl, inr,
}
use grok2api.Account.{Account, unavailable}
use grok2api.Scheduler.State.{Scheduler, Accounts}
use grok2api.Scheduler.Status.{
  no_ready, by_quota, cooling, by_auth, by_validation, count_ready, count_unavailable, earlier,
  earliest_retry, retry_after, dominant,
}

-- The reason that is reported is one that some account has and that no other of the four outnumbers;
-- none of them is reported only when no account has any of the four.
pub dominant_lem :
    (q c a v : ℕ)
    → (dominant q c a v ≡ by_quota → (0 < q) × (c ≤ q) × (a ≤ q) × (v ≤ q))
      × (dominant q c a v ≡ cooling → (0 < c) × (q ≤ c) × (a ≤ c) × (v ≤ c))
      × (dominant q c a v ≡ by_auth → (0 < a) × (q ≤ a) × (c ≤ a) × (v ≤ a))
      × (dominant q c a v ≡ by_validation → (0 < v) × (q ≤ v) × (c ≤ v) × (a ≤ v))
      × (dominant q c a v ≡ no_ready → (q ≡ 0) × (c ≡ 0) × (a ≡ 0) × (v ≡ 0))
unfolding dominant
dominant_lem q c a v = (ground arith, ground arith, ground arith, ground arith, ground arith)

-- Every account is counted once.
count-total : (m : Accounts) → count_ready m + count_unavailable m ≡ length m
unfolding count_ready count_unavailable
count-total [] = omega arith
count-total ((id, a) ∷ m) = ground (arith, count-total m)

-- An unavailable account with a deadline.
abbrev pub WaitsUntil : Account → Time → Type 0
WaitsUntil a t = (a.pool ≡ unavailable) × (a.retry_at ≡ t) × (0 < t)

earliest_retry-le :
    (e : Time) (m : Accounts) → 0 < e → (earliest_retry e m ≤ e) × (0 < earliest_retry e m)
unfolding earliest_retry
earliest_retry-le e [] h = ground arith
earliest_retry-le e ((id, a) ∷ m) h =
    ground (arith, earliest_retry-le e m, earliest_retry-le a.retry_at m)

earliest_retry_bound :
    (e t : Time) (k : Text) (a : Account) (m : Accounts)
    → lookup k m ≡ some a
    → WaitsUntil a t
    → (earliest_retry e m ≤ t) × (0 < earliest_retry e m)
unfolding earliest_retry lookup
earliest_retry_bound e t k a [] h w = cc
earliest_retry_bound e t k a ((id, b) ∷ m) h w = elim (Bool-cases (text_eq id k)) [
  | inr later ↦ earliest_retry_bound (earlier e b) t k a m (ground arith) w
  | inl here ↦ first (ground arith)
]
  where
    first :
        some b ≡ some a
        → (earliest_retry e ((id, b) ∷ m) ≤ t) × (0 < earliest_retry e ((id, b) ∷ m))
    first same = ground (arith, earliest_retry-le e m, earliest_retry-le b.retry_at m)

-- A caller is told to wait at least a second, and, beyond that, no longer than until the deadline of
-- any account that is out with a deadline set.
pub retry_after_bounds :
    (now t : Time) (s : Scheduler) (k : Text) (a : Account)
    → lookup k s.accounts ≡ some a
    → WaitsUntil a t
    → (second ≤ retry_after now s) × ((retry_after now s ≡ second) ⊎ (now + retry_after now s ≤ t))
unfolding retry_after
retry_after_bounds now t s k a h w = ground (arith, earliest_retry_bound 0 t k a s.accounts h w)
