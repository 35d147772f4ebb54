-- ===== src/Scheduler/Hot.antt =====
-- The hot set: with `active_size` above 0, at most that many accounts serve (scheduler.go,
-- `eligibleLocked` and `ensureHotLocked`). The eviction ranges over the set in the list's order.
use grok2api.Prelude.{
  ℕ, Bool, true, not, ◌||◌, none, some, List, [], ◌∷◌, ◌++◌, ltb, leb, ◌==◌, if◌then◌else◌, length,
  Text, lookup, mem, remove,
}
use grok2api.Account.{is_ready}
use grok2api.Scheduler.State.{Scheduler, Accounts}

unfoldable pub eligible : Scheduler → Text → Bool
eligible s id = s.active_size == 0 || (mem id s.hot || ltb (length s.hot) s.active_size)

-- The test of the eviction: the account is gone, parked or idle.
unfoldable pub evictable : Accounts → Text → Bool
evictable accounts id = elim (lookup id accounts) [
  | none ↦ true
  | some a ↦ not (is_ready a.pool) || a.active == 0
]

-- The range over the set; it breaks once there is room. `hot` is the set as it stands.
unfoldable pub evict : Accounts → ℕ → List Text → List Text → List Text
evict accounts size [] hot = hot
evict accounts size (h ∷ hs) hot =
    let fewer = remove h hot in
    let onward = evict accounts size hs fewer in
    let past = evict accounts size hs hot in
    if evictable accounts h then (if ltb (length fewer) size then fewer else onward) else past

unfoldable pub make_room : Scheduler → List Text
make_room s =
    if leb s.active_size (length s.hot) then evict s.accounts s.active_size s.hot s.hot else s.hot

unfoldable pub ensure_hot : Text → Scheduler → Scheduler
ensure_hot id s =
    if s.active_size == 0 || mem id s.hot
    then s
    else let hot = make_room s in
      record s { hot = if ltb (length hot) s.active_size then hot ++ id ∷ [] else hot }
