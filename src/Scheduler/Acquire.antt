-- ===== src/Scheduler/Acquire.antt =====
-- `AcquireSticky` of scheduler.go. One pass of its loop is `attempt`; the waits between the passes
-- are a list of wake-ups, each with the state that the other goroutines left and the time.
use grok2api.Prelude.{
  ◌+◌, Bool, false, not, ◌&&◌, Option, none, some, List, [], ◌∷◌, ltb, ◌==◌, if◌then◌else◌, length,
  Text, is_empty, lookup, insert, erase, keep, Time, Duration,
}
use grok2api.Account.{Account, available, is_ready}
use grok2api.Scheduler.State.{Scheduler, StickyEntry, default_sticky_ttl, put}
use grok2api.Scheduler.Hot.{eligible, ensure_hot}
use grok2api.Scheduler.Select.{pick_ready}
use grok2api.Scheduler.Status.{SelectionError, selection_failure, selection_saturated}

-- `Lease`; `released` is the state of its `sync.Once`.
pub record Lease : Type 0 where
  pub account_id : Text
  pub released : Bool

abbrev ttl_of : Scheduler → Duration
ttl_of s = if s.sticky_ttl == 0 then default_sticky_ttl else s.sticky_ttl

-- `bumpStickyLocked`
unfoldable pub bump_sticky : Text → Text → Time → Scheduler → Scheduler
bump_sticky key id now s =
    let entry : StickyEntry = record { account_id = id; expires_at = now + ttl_of s } in
    let entries = insert key entry s.sticky in
    record s {
      sticky =
          if ltb 10000 (length entries)
          then keep (λ k e. not (ltb e.expires_at now)) entries
          else entries;
    }

-- `item.Active++`, `item.RequestCount++` and `ensureHotLocked`
unfoldable pub grant : Text → Account → Scheduler → Scheduler
grant id item s =
    ensure_hot id
      (put id (record item { active = item.active + 1; request_count = item.request_count + 1 }) s)

abbrev pub new_lease : Text → Lease
new_lease id = record { account_id = id; released = false }

-- The entry that the session is stuck to, once it is found and has not expired.
unfoldable pub follow_sticky : Time → Text → StickyEntry → Scheduler → Scheduler × Option Lease
follow_sticky now key entry s = elim (lookup entry.account_id s.accounts) [
  | none ↦ (record s { sticky = erase key s.sticky }, none)
  | some item ↦
      if available item && eligible s entry.account_id
      then (
        bump_sticky key entry.account_id now (grant entry.account_id item s),
        some (new_lease entry.account_id),
      )
      else if not (is_ready item.pool)
      then (record s { sticky = erase key s.sticky }, none)
      else (s, none)
]

-- What the key is stuck to: an entry that has expired is dropped.
unfoldable pub try_entry : Time → Text → Scheduler → Option StickyEntry → Scheduler × Option Lease
try_entry now key s none = (s, none)
try_entry now key s (some entry) =
    if ltb entry.expires_at now
    then (record s { sticky = erase key s.sticky }, none)
    else follow_sticky now key entry s

unfoldable pub try_sticky : Time → Text → Scheduler → Scheduler × Option Lease
try_sticky now key s =
    if s.sticky_on && not (is_empty key)
    then try_entry now key s (lookup key s.sticky)
    else (s, none)

pub data Outcome : Type 0 where
  leased : Lease → Outcome
  failed : SelectionError → Outcome
  waits : SelectionError → Outcome

-- What follows `pickReadyLocked`.
unfoldable pub lease_item : Time → Text → Text → Scheduler → Option Account → Scheduler × Outcome
lease_item now key id s none = (s, waits (selection_saturated now s))
lease_item now key id s (some item) =
    let granted = grant id item s in
    (
      if s.sticky_on && not (is_empty key) then bump_sticky key id now granted else granted,
      leased (new_lease id),
    )

unfoldable pub lease_picked : Time → Text → Scheduler → Option Text → Scheduler × Outcome
unfolding lease_item
lease_picked now key s none = (s, waits (selection_saturated now s))
lease_picked now key s (some id) = lease_item now key id s (lookup id s.accounts)

unfoldable pub lease_or_pick : Time → Text → Scheduler → Option Lease → Scheduler × Outcome
lease_or_pick now key s (some lease) = (s, leased lease)
lease_or_pick now key s none = let (picked, id) = pick_ready now s in lease_picked now key picked id

-- One pass of the loop, under the lock.
unfoldable pub attempt : Time → Text → Scheduler → Scheduler × Outcome
attempt now key s =
    if length s.ready == 0
    then (s, failed (selection_failure now s))
    else let (tried, lease) = try_sticky now key s in lease_or_pick now key tried lease

-- A receive from `notify`: the time, and what the other goroutines did to the state before it.
pub record Wake : Type 0 where
  pub at : Time
  pub meanwhile : Scheduler → Scheduler

pub data Result : Type 0 where
  ok : Lease → Result
  err : SelectionError → Result

abbrev pub settle : Scheduler × Outcome → Scheduler × Result
settle (t, leased lease) = (t, ok lease)
settle (t, failed e) = (t, err e)
settle (t, waits e) = (t, err e)

-- A pass that waits goes on with `again`, in the state that it wakes up in.
abbrev pub wait_for : (Scheduler → Scheduler × Result) → Scheduler × Outcome → Scheduler × Result
wait_for again (t, leased lease) = (t, ok lease)
wait_for again (t, failed e) = (t, err e)
wait_for again (t, waits e) = again t

-- The state in which a waiting request wakes up: a receive takes the signal out of the channel.
abbrev pub woken : Wake → Scheduler → Scheduler
woken w t = record (w.meanwhile t) { notify = false }

-- The loop. The end of the list is `ctx.Done()`, where the last saturation is the error.
unfoldable pub acquire_sticky : List Wake → Time → Text → Scheduler → Scheduler × Result
acquire_sticky [] now key s = settle (attempt now key s)
acquire_sticky (w ∷ wakes) now key s =
    wait_for (λ t. acquire_sticky wakes w.at key (woken w t)) (attempt now key s)
