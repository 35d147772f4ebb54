-- ===== src/Scheduler/Invariant/Hot.antt =====
-- The hot set keeps within its size and within the ready list (`ensureHotLocked`).
use grok2api.Prelude.{
  ℕ, ◌≤◌, ◌<◌, ◌≡◌, refl, true, some, List, [], ◌∷◌, arith, length, length-append, Text,
  text_eq_iff, lookup, mem, remove, Distinct, mem-remove, mem-append, length-remove-le,
  remove-Distinct, append_one-Distinct, mem-one,
}
use grok2api.Account.{Account, is_ready, available}
use grok2api.Scheduler.State.{Scheduler, Accounts}
use grok2api.Scheduler.Hot.{eligible, evict, make_room, ensure_hot}
use grok2api.Scheduler.Acquire.{grant}
use grok2api.Scheduler.Invariant.{IsSound, Sound-insert}

module _ (accounts : Accounts) (size : ℕ) where
  evict-mem :
      (j : Text) (todo hot : List Text)
      → mem j (evict accounts size todo hot) ≡ true
      → mem j hot ≡ true
  unfolding evict
  evict-mem j [] hot h = h
  evict-mem j (k ∷ todo) hot h =
      ground (arith, mem-remove k j hot, evict-mem j todo hot, evict-mem j todo (remove k hot))

  evict-Distinct : (todo hot : List Text) → Distinct hot → Distinct (evict accounts size todo hot)
  unfolding evict
  evict-Distinct [] hot d = d
  evict-Distinct (k ∷ todo) hot d = ground (
    arith,
    remove-Distinct k hot d,
    evict-Distinct todo hot d,
    evict-Distinct todo (remove k hot) (remove-Distinct k hot d),
  )

  length-evict-le : (todo hot : List Text) → length (evict accounts size todo hot) ≤ length hot
  unfolding evict
  length-evict-le [] hot = omega arith
  length-evict-le (k ∷ todo) hot =
      ground (
        arith,
        length-remove-le k hot,
        length-evict-le todo hot,
        length-evict-le todo (remove k hot),
      )

make_room-mem : (j : Text) (s : Scheduler) → mem j (make_room s) ≡ true → mem j s.hot ≡ true
unfolding make_room
make_room-mem j s h = ground (arith, evict-mem s.accounts s.active_size j s.hot s.hot)

make_room-Distinct : (s : Scheduler) → Distinct s.hot → Distinct (make_room s)
unfolding make_room
make_room-Distinct s d = ground (arith, evict-Distinct s.accounts s.active_size s.hot s.hot d)

length-make_room-le : (s : Scheduler) → length (make_room s) ≤ length s.hot
unfolding make_room
length-make_room-le s = ground (arith, length-evict-le s.accounts s.active_size s.hot s.hot)

available-is_ready : (a : Account) → available a ≡ true → is_ready a.pool ≡ true
unfolding available
available-is_ready a h = ground arith

ensure_hot-IsSound :
    (id : Text) (s : Scheduler) → mem id s.ready ≡ true → IsSound s → IsSound (ensure_hot id s)
unfolding ensure_hot
ensure_hot-IsSound id s h v = record {
  exact = λ j. ground (arith, v.exact j);
  keyed = λ j a e. ground (arith, v.keyed j a);
  no_repeat = ground (arith, v.no_repeat);
  one_entry = ground (arith, v.one_entry);
  hot_ready = λ j p. ground (
    arith,
    v.hot_ready j,
    make_room-mem j s,
    mem-append j (make_room s) (id ∷ []),
    mem-one id j,
    text_eq_iff id j,
  );
  hot_once = ground (
    arith,
    v.hot_once,
    make_room-Distinct s v.hot_once,
    make_room-mem id s,
    append_one-Distinct id (make_room s),
  );
  hot_bound = λ p.
      ground (arith, v.hot_bound, length-make_room-le s, length-append (make_room s) (id ∷ []));
}

-- An account that the hot set admits is in it once a lease on it is granted, when there is a hot set.
pub grant-hot :
    (id : Text) (a : Account) (s : Scheduler)
    → eligible s id ≡ true
    → 0 < s.active_size
    → mem id (grant id a s).hot ≡ true
unfolding grant ensure_hot eligible make_room
grant-hot id a s h p =
    ground (arith, mem-append id s.hot (id ∷ []), mem-one id id, text_eq_iff id id)

pub grant-IsSound :
    (id : Text) (a : Account) (s : Scheduler)
    → lookup id s.accounts ≡ some a
    → available a ≡ true
    → IsSound s
    → IsSound (grant id a s)
unfolding grant
grant-IsSound id a s found free v =
    ensure_hot-IsSound id _ (ground (arith, v.exact id, available-is_ready a free))
      (Sound-insert id a _ found refl refl v)
