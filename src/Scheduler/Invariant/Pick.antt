-- ===== src/Scheduler/Invariant/Pick.antt =====
-- A pass of `AcquireSticky` keeps the scheduler sound, also where it parks accounts on its way.
use grok2api.Prelude.{
  ◌≡◌, refl, Bool, true, false, not, ◌&&◌, Option, none, some, List, [], ◌∷◌, arith, ltb,
  if◌then◌else◌, Text, is_empty, lookup, Time, Duration, Option-cases, Bool-cases, inl, inr,
}
use grok2api.Account.{Account, is_ready, available, park_known_exhausted}
use grok2api.Scheduler.State.{
  Scheduler, StickyEntry, Strategy, fill_first, round_robin, remove_ready,
}
use grok2api.Scheduler.Hot.{eligible}
use grok2api.Scheduler.Select.{
  Scan, consider, visit_item, visit, scan, choose_by, choose, begin, pick_ready, park_retry,
}
use grok2api.Scheduler.Acquire.{bump_sticky, follow_sticky, try_entry, try_sticky}
use grok2api.Scheduler.Invariant.{IsSound, Sound-insert_parked}
use grok2api.Scheduler.Invariant.Hot.{grant-IsSound}

-- What parking changes.
pub park-unready :
    (now : Time) (d : Duration) (a : Account)
    → (park_known_exhausted now now d a).1 ≡ true
    → let b = (park_known_exhausted now now d a).0 in
      (b.id ≡ a.id) × (is_ready b.pool ≡ false) × (is_ready a.pool ≡ true) × (available a ≡ false)
unfolding park_known_exhausted available
park-unready now d a h = ground arith

consider-sched : (id : Text) (a : Account) (st : Scan) → (consider id a st).sched ≡ st.sched
unfolding consider
consider-sched id a st = refl

visit_item-IsSound :
    (now : Time) (id : Text) (a : Account) (st : Scan)
    → lookup id st.sched.accounts ≡ some a
    → IsSound st.sched
    → IsSound (visit_item now id a st).sched
unfolding visit_item remove_ready consider
visit_item-IsSound now id a st found v =
    elim (Bool-cases (park_known_exhausted now now (park_retry st.sched) a).1) [
      | inl parks ↦ rw parks (
          let p = park-unready now (park_retry st.sched) a parks in
          Sound-insert_parked id _ (ground (arith, v.keyed id a found)) p.1 v)
      | inr stays ↦ rw stays (unparked (available a) (eligible st.sched id))
    ]
  where
    unparked :
        (b e : Bool) → IsSound (if not b then st else if not e then st else consider id a st).sched
    unparked true true = v
    unparked true false = v
    unparked false e = v

visit-IsSound :
    (now : Time) (id : Text) (st : Scan) → IsSound st.sched → IsSound (visit now id st).sched
unfolding visit
visit-IsSound now id st v = elim (Option-cases (lookup id st.sched.accounts)) [
  | inl missing ↦ rw (missing, visit) v
  | inr (a, found) ↦ rw (found, visit) (visit_item-IsSound now id a st found v)
]

scan-IsSound :
    (now : Time) (ids : List Text) (st : Scan) → IsSound st.sched → IsSound (scan now ids st).sched
unfolding scan
scan-IsSound now [] st v = v
scan-IsSound now (id ∷ ids) st v = scan-IsSound now ids _ (visit-IsSound now id st v)

choose_by-IsSound :
    (how : Strategy) (s : Scheduler) (id : Text) (ids : List Text)
    → IsSound s
    → IsSound (choose_by how s id ids).0
unfolding choose_by
choose_by-IsSound fill_first s id ids v = v
choose_by-IsSound round_robin s id ids v = v

choose-IsSound : (s : Scheduler) (ids : List Text) → IsSound s → IsSound (choose s ids).0
unfolding choose
choose-IsSound s [] v = v
choose-IsSound s (id ∷ ids) v = choose_by-IsSound s.strategy s id ids v

pub pick_ready-IsSound : (now : Time) (s : Scheduler) → IsSound s → IsSound (pick_ready now s).0
unfolding pick_ready
pick_ready-IsSound now s v = choose-IsSound _ _ (scan-IsSound now s.ready (begin s) v)

bump_sticky-IsSound :
    (key id : Text) (now : Time) (s : Scheduler) → IsSound s → IsSound (bump_sticky key id now s)
unfolding bump_sticky
bump_sticky-IsSound key id now s v = v

if-IsSound {ℓ} :
    {A : Type ℓ} (b : Bool) (x y : Scheduler × A)
    → (b ≡ true → IsSound x.0)
    → (b ≡ false → IsSound y.0)
    → IsSound (if b then x else y).0
if-IsSound true x y v w = v refl
if-IsSound false x y v w = w refl

follow_sticky-IsSound :
    (now : Time) (key : Text) (e : StickyEntry) (s : Scheduler)
    → IsSound s
    → IsSound (follow_sticky now key e s).0
unfolding follow_sticky
follow_sticky-IsSound now key e s v = elim (Option-cases (lookup e.account_id s.accounts)) [
  | inl missing ↦ rw (missing, follow_sticky) v
  | inr (a, found) ↦
      rw (found, follow_sticky)
        (if-IsSound (available a && eligible s e.account_id) _ _
          (λ free.
            bump_sticky-IsSound key e.account_id now _
              (grant-IsSound e.account_id a s found (ground arith) v))
          (λ busy. if-IsSound (not (is_ready a.pool)) _ _ (λ _. v) (λ _. v)))
]

try_entry-IsSound :
    (now : Time) (key : Text) (s : Scheduler) (e : Option StickyEntry)
    → IsSound s
    → IsSound (try_entry now key s e).0
unfolding try_entry
try_entry-IsSound now key s none v = v
try_entry-IsSound now key s (some e) v =
    if-IsSound (ltb e.expires_at now) _ _ (λ _. v) (λ _. follow_sticky-IsSound now key e s v)

pub try_sticky-IsSound :
    (now : Time) (key : Text) (s : Scheduler) → IsSound s → IsSound (try_sticky now key s).0
unfolding try_sticky
try_sticky-IsSound now key s v =
    if-IsSound (s.sticky_on && not (is_empty key)) _ _ (λ _. try_entry-IsSound now key s _ v)
      (λ _. v)
