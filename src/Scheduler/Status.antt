-- ===== src/Scheduler/Status.antt =====
-- Counts of the accounts, and why no account could be leased (scheduler.go, `statusLocked`,
-- `selectionFailureLocked`, `selectionSaturatedLocked`, `retryAfterLocked`).
pub mod Reasons
use grok2api.Prelude.{
  ℕ, zero, suc, ◌+◌, ◌-◌, Bool, true, false, not, ◌&&◌, ◌||◌, Option, none, some, List, [], ◌∷◌,
  ltb, leb, ◌==◌, if◌then◌else◌, length, Text, Time, Duration, second, sub_time,
}
use grok2api.Account.{
  Account, Pool, Reason, no_pool, no_reason, quota, auth, cooldown, validating, disabled, is_ready,
  is_unavailable,
}
use grok2api.Scheduler.State.{Scheduler, Accounts}

pub data SelectionReason : Type 0 where
  no_ready saturated by_quota cooling by_auth by_validation : SelectionReason

pub record SelectionError : Type 0 where
  pub reason : SelectionReason
  pub retry_after : Duration
  pub ready : ℕ
  pub unavailable : ℕ

-- `UnavailableReason` as a key of the map that `statusLocked` builds.
abbrev pub reason_eq : Reason → Reason → Bool
reason_eq no_reason no_reason = true
reason_eq quota quota = true
reason_eq auth auth = true
reason_eq cooldown cooldown = true
reason_eq validating validating = true
reason_eq disabled disabled = true
reason_eq _ _ = false

unfoldable pub count_ready : Accounts → ℕ
count_ready [] = 0
count_ready ((id, a) ∷ m) = (if is_ready a.pool then 1 else 0) + count_ready m

unfoldable pub count_unavailable : Accounts → ℕ
count_unavailable [] = 0
count_unavailable ((id, a) ∷ m) = (if is_ready a.pool then 0 else 1) + count_unavailable m

-- `reasons[r]`
unfoldable pub count_reason : Reason → Accounts → ℕ
count_reason r [] = 0
count_reason r ((id, a) ∷ m) =
    (if not (is_ready a.pool) && reason_eq a.unavailable_reason r then 1 else 0) + count_reason r m

unfoldable pub status : Scheduler → ℕ × ℕ × (Reason → ℕ)
unfolding count_ready count_unavailable count_reason
status s = (count_ready s.accounts, count_unavailable s.accounts, λ r. count_reason r s.accounts)

-- One round of the loop of `retryAfterLocked` and of `EarliestRetry`; 0 is the zero time.
unfoldable pub earlier : Time → Account → Time
earlier earliest a =
    if not (is_unavailable a.pool) || a.retry_at == 0
    then earliest
    else if earliest == 0 || ltb a.retry_at earliest
    then a.retry_at
    else earliest

unfoldable pub earliest_retry : Time → Accounts → Time
unfolding earlier
earliest_retry earliest [] = earliest
earliest_retry earliest ((id, a) ∷ m) = earliest_retry (earlier earliest a) m

unfoldable pub retry_after : Time → Scheduler → Duration
retry_after now s =
    let earliest = earliest_retry 0 s.accounts in
    if earliest == 0
    then second
    else if ltb (sub_time earliest now) second
    then second
    else sub_time earliest now

-- The `switch` on the counts of the four reasons.
unfoldable pub dominant : ℕ → ℕ → ℕ → ℕ → SelectionReason
dominant q c a v =
    if ltb 0 q && (leb c q && (leb a q && leb v q))
    then by_quota
    else if ltb 0 c && (leb a c && leb v c)
    then cooling
    else if ltb 0 a && leb v a
    then by_auth
    else if ltb 0 v
    then by_validation
    else no_ready

unfoldable pub selection_failure : Time → Scheduler → SelectionError
unfolding dominant
selection_failure now s =
    let (ready, unavailable, reasons) = status s in
    record {
      reason =
          if ltb 0 unavailable
          then dominant (reasons quota) (reasons cooldown) (reasons auth) (reasons validating)
          else no_ready;
      retry_after = retry_after now s;
      ready = ready;
      unavailable = unavailable;
    }

unfoldable pub selection_saturated : Time → Scheduler → SelectionError
unfolding selection_failure
selection_saturated now s =
    let (ready, unavailable, reasons) = status s in
    if ready == 0 then selection_failure now s else record {
      reason = saturated;
      retry_after = second;
      ready = ready;
      unavailable = unavailable;
    }

-- `ReadyCount`
unfoldable ready_count : Scheduler → ℕ
ready_count s = length s.ready

-- `ActiveByID`
unfoldable active_by_id : Accounts → List (Text × ℕ)
active_by_id [] = []
active_by_id ((id, a) ∷ m) =
    if a.active == 0 then active_by_id m else (id, a.active) ∷ active_by_id m
