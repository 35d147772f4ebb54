-- ===== src/Scheduler/Select.antt =====
-- `pickReadyLocked` of scheduler.go: the account that serves next.
use grok2api.Prelude.{
  ℕ, ◌+◌, ◌*◌, ◌%◌, Bool, false, not, ◌||◌, Option, none, some, List, [], ◌∷◌, ◌++◌, ltb, ◌==◌,
  if◌then◌else◌, length, get_elem?, Text, text_lt, lookup, Time, Duration, hour,
}
use grok2api.Account.{Account, available, park_known_exhausted}
use grok2api.Scheduler.State.{
  Scheduler, Strategy, round_robin, fill_first, u64, remove_ready, put, bump_revision,
}
use grok2api.Scheduler.Hot.{eligible}

-- The variables of the first loop.
pub record Scan : Type 0 where
  pub sched : Scheduler
  pub candidates : List Text
  pub highest : ℕ
  pub has_candidate : Bool

-- The last two tests of the loop: a higher priority starts the list anew.
unfoldable pub consider : Text → Account → Scan → Scan
consider id item st =
    let fresh = not st.has_candidate || ltb st.highest item.priority in
    let highest = if fresh then item.priority else st.highest in
    let candidates = if fresh then [] else st.candidates in
    record st {
      highest = highest;
      has_candidate = fresh || st.has_candidate;
      candidates = if item.priority == highest then candidates ++ id ∷ [] else candidates;
    }

abbrev pub park_retry : Scheduler → Duration
park_retry s = if s.quota_retry == 0 then 24 * hour else s.quota_retry

-- The rest of the round once the account is found.
unfoldable pub visit_item : Time → Text → Account → Scan → Scan
visit_item now id item st =
    let (parked, done) = park_known_exhausted now now (park_retry st.sched) item in
    if done
    then record st { sched = bump_revision (remove_ready id (put id parked st.sched)) }
    else if not (available item)
    then st
    else if not (eligible st.sched id)
    then st
    else consider id item st

-- One round of the loop over the ready ids.
unfoldable pub visit : Time → Text → Scan → Scan
visit now id st = elim (lookup id st.sched.accounts) [
  | none ↦ st
  | some item ↦ visit_item now id item st
]

unfoldable pub scan : Time → List Text → Scan → Scan
scan now [] st = st
scan now (id ∷ ids) st = scan now ids (visit now id st)

-- The second loop: the ids of the lowest load. `none` is the source's -1.
unfoldable pub balance_one : ℕ → Text → Option ℕ × List Text → Option ℕ × List Text
balance_one active id (none, ids) = (some active, id ∷ [])
balance_one active id (some lowest, ids) =
    if ltb active lowest
    then (some active, id ∷ [])
    else if active == lowest
    then (some lowest, ids ++ id ∷ [])
    else (some lowest, ids)

unfoldable pub balance : Scheduler → List Text → Option ℕ × List Text → Option ℕ × List Text
balance s [] acc = acc
balance s (id ∷ ids) acc = elim (lookup id s.accounts) [
  | none ↦ balance s ids acc
  | some item ↦ balance s ids (balance_one item.active id acc)
]

-- The smallest id, for fill-first.
unfoldable pub smallest : Text → List Text → Text
smallest chosen [] = chosen
smallest chosen (id ∷ ids) = smallest (if text_lt id chosen then id else chosen) ids

-- The `switch` on the strategy; the list that it chooses from is not empty.
unfoldable pub choose_by : Strategy → Scheduler → Text → List Text → Scheduler × Option Text
choose_by fill_first s id ids = (s, some (smallest id ids))
choose_by round_robin s id ids = (
  record s { rr_cursor = u64 (s.rr_cursor + 1) },
  get_elem? (id ∷ ids) (s.rr_cursor % length (id ∷ ids)),
)

unfoldable pub choose : Scheduler → List Text → Scheduler × Option Text
unfolding choose_by
choose s [] = (s, none)
choose s (id ∷ ids) = choose_by s.strategy s id ids

abbrev pub begin : Scheduler → Scan
begin s = record { sched = s; candidates = []; highest = 0; has_candidate = false }

unfoldable pub pick_ready : Time → Scheduler → Scheduler × Option Text
unfolding scan balance choose
pick_ready now s =
    let found = scan now s.ready (begin s) in
    choose found.sched (balance found.sched found.candidates (none, [])).1
