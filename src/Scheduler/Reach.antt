-- ===== src/Scheduler/Reach.antt =====
-- Every interleaving of the scheduler's critical sections, from `New` on. A request that waits takes
-- the lock once for each pass of its loop, so its passes are operations of their own.
use grok2api.Prelude.{
  ℕ, Bool, List, [], ◌∷◌, map, Distinct, Text, is_empty, trim_space, ◌==◌, Bool-cases, inl, inr,
  Time, Duration,
}
use grok2api.Account.{Account, Reason}
use grok2api.Scheduler.State.{
  Scheduler, new, with_strategy, with_sticky, apply_max_active, apply_active_size,
  configure_quota_retry,
}
use grok2api.Scheduler.Acquire.{Lease, attempt}
use grok2api.Scheduler.Lease.{drop_sticky, move_unavailable, report_usage, release}
use grok2api.Scheduler.Manage.{upsert, delete, promote_due, clear_sticky_by_account}
use grok2api.Scheduler.Cooldown.{note_failure, note_success}
use grok2api.Scheduler.Invariant.{IsSound, cond-IsSound}
use grok2api.Scheduler.Invariant.Acquire.{attempt-IsSound}
use grok2api.Scheduler.Invariant.Leases.{
  move_unavailable-IsSound, report_usage-IsSound, release-IsSound,
}
use grok2api.Scheduler.Invariant.Manage.{
  upsert-IsSound, delete-IsSound, apply_max_active-IsSound, apply_active_size-IsSound, new-IsSound,
}
use grok2api.Scheduler.Invariant.Promote.{promote_due-IsSound}

pub data Op : Type 0 where
  attempts : Text → Op
  moves : Lease → Reason → Time → Text → Op
  uses : Lease → ℕ → ℕ → Op
  releases : Lease → Op
  upserts : Account → Op
  deletes fails succeeds clears : Text → Op
  promotes : Op
  sets_strategy : Text → Op
  sets_sticky : Bool → Duration → Op
  sets_max_active sets_active_size : ℕ → Op
  sets_quota_retry : Duration → Op

unfoldable pub step : Scheduler → Time × Op → Scheduler
step s (now, attempts key) = (attempt now key s).0
step s (now, moves l why retry_at code) = move_unavailable now l why retry_at code s
step s (now, uses l actual limit) = report_usage now l actual limit now s
step s (now, releases l) = (release l s).1
step s (now, upserts a) = upsert a s
step s (now, deletes id) = (delete id s).0
step s (now, fails id) = (note_failure id s).0
step s (now, succeeds id) = note_success id s
step s (now, clears id) = clear_sticky_by_account id s
step s (now, promotes) = (promote_due now s).0
step s (now, sets_strategy name) = with_strategy name s
step s (now, sets_sticky on ttl) = with_sticky on ttl s
step s (now, sets_max_active n) = apply_max_active n s
step s (now, sets_active_size n) = apply_active_size n s
step s (now, sets_quota_retry d) = configure_quota_retry d s

unfoldable pub run : Scheduler → List (Time × Op) → Scheduler
run s [] = s
run s (op ∷ ops) = run (step s op) ops

note_failure-IsSound : (id : Text) (s : Scheduler) → IsSound s → IsSound (note_failure id s).0
unfolding note_failure
note_failure-IsSound id s v = elim (Bool-cases (is_empty (trim_space id))) [
  | inl blank ↦ rw blank v
  | inr named ↦ rw named v
]

step-IsSound : (s : Scheduler) (op : Time × Op) → IsSound s → IsSound (step s op)
unfolding step
step-IsSound s (now, attempts key) v = attempt-IsSound now key s v
step-IsSound s (now, moves l why retry_at code) v =
    move_unavailable-IsSound now l why retry_at code s v
step-IsSound s (now, uses l actual limit) v = report_usage-IsSound now l actual limit now s v
step-IsSound s (now, releases l) v = release-IsSound l s v
step-IsSound s (now, upserts a) v = upsert-IsSound a s v
step-IsSound s (now, deletes id) v = delete-IsSound id s v
step-IsSound s (now, fails id) v = note_failure-IsSound id s v
step-IsSound s (now, succeeds id) v =
    unfold note_success in cond-IsSound (is_empty (trim_space id)) s _ v v
step-IsSound s (now, clears id) v =
    unfold clear_sticky_by_account drop_sticky in cond-IsSound (is_empty (trim_space id)) s _ v v
step-IsSound s (now, promotes) v = promote_due-IsSound now s v
step-IsSound s (now, sets_strategy name) v = unfold with_strategy in v
step-IsSound s (now, sets_sticky on ttl) v = unfold with_sticky in v
step-IsSound s (now, sets_max_active n) v = apply_max_active-IsSound n s v
step-IsSound s (now, sets_active_size n) v = apply_active_size-IsSound n s v
step-IsSound s (now, sets_quota_retry d) v =
    unfold configure_quota_retry in cond-IsSound (d == 0) s _ v v

run-IsSound : (s : Scheduler) (ops : List (Time × Op)) → IsSound s → IsSound (run s ops)
unfolding run
run-IsSound s [] v = v
run-IsSound s (op ∷ ops) v = run-IsSound (step s op) ops (step-IsSound s op v)

-- From any accounts with distinct ids, after any sequence of operations at any times: the ready
-- list holds each account of the ready pool exactly once and nothing else, each account stands
-- under its own id, and the hot set is a part of the ready list that is not above its size.
pub run-new-IsSound :
    (accounts : List Account) (ops : List (Time × Op))
    → Distinct (map (λ a. a.id) accounts)
    → IsSound (run (new accounts) ops)
run-new-IsSound accounts ops d = run-IsSound (new accounts) ops (new-IsSound accounts d)
