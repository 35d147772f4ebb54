-- ===== src/Tests/Scheduler.antt =====
-- The theorems on the scheduler at concrete inputs.
use grok2api.Prelude.{
  ◌+◌, ◌-◌, ◌*◌, ◌^◌, ◌≤◌, ◌≡◌, refl, false, [], ◌∷◌, if◌then◌else◌, codes, mem, erase, keep,
  remove, text_lt, is_empty, lookup, insert, text_eq, second, hour,
}
use grok2api.Account.{cooldown, park_known_exhausted, available, quota_exhausted}
use grok2api.Scheduler.State.{new, remove_ready, enlist, enlist_all}
use grok2api.Scheduler.Hot.{eligible, ensure_hot, evict, evictable, make_room}
use grok2api.Scheduler.Select.{
  pick_ready, visit, visit_item, consider, balance_one, balance, choose, choose_by, scan, smallest,
}
use grok2api.Scheduler.Cooldown.{cooldown_for_streak}
use grok2api.Scheduler.Acquire.{
  new_lease, grant, attempt, lease_or_pick, try_sticky, try_entry, lease_picked, bump_sticky,
  follow_sticky, lease_item,
}
use grok2api.Scheduler.Lease.{release}
use grok2api.Scheduler.Invariant.{IsSound}
use grok2api.Scheduler.Choice.Best.{IsBest, pick_ready-IsBest}
use grok2api.Scheduler.Reach.{run, attempts, moves, deletes, run-new-IsSound}
use grok2api.Scheduler.Accounting.{load, one_on, granted_on, attempt-load}
use grok2api.Scheduler.Accounting.Writes.{release-load}
use grok2api.Scheduler.Limits.{HasRoom, attempt-HasRoom}
use grok2api.Scheduler.Ledger.{Balances, act_all, requests, returns, ledger-Balances}
use grok2api.Scheduler.Cooldown.Growth.{base_of, cooldown_bounds, cooldown_exact}
use grok2api.Tests.Fixtures.{now, accounts, accounts-Distinct, pool_of_three}

run-new-IsSound_example : IsSound (
    run (new accounts) (
      (now, attempts (codes "k"))
      ∷ (now, moves (new_lease (codes "high")) cooldown (now + hour) (codes "e"))
      ∷ (now, deletes (codes "low"))
      ∷ []))
run-new-IsSound_example =
    run-new-IsSound accounts
      ((now, attempts (codes "k"))
        ∷ (now, moves (new_lease (codes "high")) cooldown (now + hour) (codes "e"))
        ∷ (now, deletes (codes "low"))
        ∷ [])
      accounts-Distinct

pick_ready-IsBest_example :
    IsBest now pool_of_three (pick_ready now pool_of_three).0 (pick_ready now pool_of_three).1
pick_ready-IsBest_example = pick_ready-IsBest now pool_of_three

attempt-HasRoom_example : HasRoom pool_of_three (new_lease (codes "high"))
unfolding attempt new lease_or_pick try_sticky is_empty try_entry lookup lease_picked pick_ready
    visit insert text_eq visit_item park_known_exhausted available eligible consider remove_ready
    balance_one quota_exhausted erase keep mem remove text_lt bump_sticky follow_sticky grant
    lease_item ensure_hot evict evictable make_room balance choose choose_by scan smallest enlist
    enlist_all
attempt-HasRoom_example =
    attempt-HasRoom now (codes "k") pool_of_three (new_lease (codes "high")) refl

attempt-load_example :
    load (codes "high") (attempt now (codes "k") pool_of_three).0
    ≡ load (codes "high") pool_of_three
      + granted_on (attempt now (codes "k") pool_of_three).1 (codes "high")
attempt-load_example = attempt-load now (codes "k") (codes "high") pool_of_three

release-load_example :
    let l = new_lease (codes "high") in
    (load (codes "high") (release l pool_of_three).1
      ≡ load (codes "high") pool_of_three
        - (if false then 0 else one_on (codes "high") (codes "high")))
    × (release (release l pool_of_three).0 (release l pool_of_three).1 ≡ release l pool_of_three)
release-load_example = release-load (new_lease (codes "high")) (codes "high") pool_of_three

ledger-Balances_example : Balances (
    act_all
      (record { sched = new accounts; out = [] })
      ((now, requests (codes "k"))
        ∷ (now, requests (codes "l"))
        ∷ (now, returns (codes "high"))
        ∷ []))
ledger-Balances_example =
    ledger-Balances accounts
      ((now, requests (codes "k"))
        ∷ (now, requests (codes "l"))
        ∷ (now, returns (codes "high"))
        ∷ [])
      (refl, (refl, (refl, tt)))

cooldown_bounds_example :
    (base_of (45 * second) ≤ cooldown_for_streak (45 * second) 3)
    × (base_of (45 * second) ≤ 2 * hour → cooldown_for_streak (45 * second) 3 ≤ 2 * hour)
    × (cooldown_for_streak (45 * second) 3 ≤ cooldown_for_streak (45 * second) (3 + 1))
cooldown_bounds_example = cooldown_bounds (45 * second) 3

cooldown_exact_example :
    (3 ≤ 5
      → base_of (45 * second) * 2 ^ 3 ≤ 2 * hour
      → cooldown_for_streak (45 * second) (3 + 1) ≡ base_of (45 * second) * 2 ^ 3)
    × (5 ≤ 3 → cooldown_for_streak (45 * second) (3 + 1) ≡ cooldown_for_streak (45 * second) 6)
cooldown_exact_example = cooldown_exact (45 * second) 3
