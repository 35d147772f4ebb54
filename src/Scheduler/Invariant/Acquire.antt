-- ===== src/Scheduler/Invariant/Acquire.antt =====
-- `AcquireSticky` keeps the scheduler sound.
use grok2api.Prelude.{
  ◌≡◌, refl, Bool, true, false, not, ◌&&◌, Option, none, some, ◌==◌, if◌then◌else◌, length, Text,
  is_empty, Time, inl, inr, Bool-cases,
}
use grok2api.Account.{Account}
use grok2api.Scheduler.State.{Scheduler}
use grok2api.Scheduler.Select.{pick_ready}
use grok2api.Scheduler.Acquire.{
  Lease, bump_sticky, grant, lease_item, lease_picked, lease_or_pick, attempt,
}
use grok2api.Scheduler.Invariant.{IsSound}
use grok2api.Scheduler.Invariant.Hot.{grant-IsSound}
use grok2api.Scheduler.Invariant.Pick.{pick_ready-IsSound, try_sticky-IsSound}
use grok2api.Scheduler.Choice.{Serves}
use grok2api.Scheduler.Choice.Best.{pick_ready-IsBest}

lease_picked-IsSound :
    (now : Time) (key : Text) (t : Scheduler) (o : Option Text)
    → ((id : Text) → o ≡ some id → (a : Account) × Serves t id a)
    → IsSound t
    → IsSound (lease_picked now key t o).0
unfolding lease_picked
lease_picked-IsSound now key t none serves v = v
lease_picked-IsSound now key t (some id) serves v =
    let (a, (found, free, hot)) = serves id refl in
    rw (found, lease_item)
      (stuck (grant id a t) (t.sticky_on && not (is_empty key)) (grant-IsSound id a t found free v))
  where
    stuck :
        (u : Scheduler) (b : Bool) → IsSound u → IsSound (if b then bump_sticky key id now u else u)
    stuck u true v = unfold bump_sticky in v
    stuck u false v = v

lease_or_pick-IsSound :
    (now : Time) (key : Text) (s : Scheduler) (l : Option Lease)
    → IsSound s
    → IsSound (lease_or_pick now key s l).0
unfolding lease_or_pick
lease_or_pick-IsSound now key s (some l) v = v
lease_or_pick-IsSound now key s none v =
    lease_picked-IsSound now key (pick_ready now s).0 (pick_ready now s).1
      (λ id e. let (a, w, _) = (pick_ready-IsBest now s).best id e in (a, w))
      (pick_ready-IsSound now s v)

pub attempt-IsSound :
    (now : Time) (key : Text) (s : Scheduler) → IsSound s → IsSound (attempt now key s).0
unfolding attempt
attempt-IsSound now key s v = elim (Bool-cases (length s.ready == 0)) [
  | inl nothing ↦ rw nothing v
  | inr something ↦
      rw something (lease_or_pick-IsSound now key _ _ (try_sticky-IsSound now key s v))
]
