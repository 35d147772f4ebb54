-- ===== src/Scheduler/Invariant.antt =====
-- What holds of the scheduler between two operations: the ready list is exactly the ready accounts.
pub mod Hot
pub mod Pick
pub mod Acquire
pub mod Manage
pub mod Leases
pub mod Writes
pub mod Promote
use grok2api.Prelude.{
  ℕ, ◌+◌, ◌≤◌, ◌<◌, ◌≡◌, refl, ap, sym, ◌∙◌, Bool, true, false, not, ◌&&◌, ◌||◌, Option, none, some,
  List, [], ◌∷◌, ◌++◌, arith, ltb, leb, ◌==◌, if◌then◌else◌, length, length-append, Text, text_eq,
  text_eq_iff, lookup, insert, erase, map_values, mem, remove, keys, Distinct, lookup-insert,
  lookup-erase, lookup-map_values, mem-remove, mem-append, length-remove-le, remove-Distinct,
  insert-Distinct, erase-Distinct, keys-map_values, mem-keys,
}
use grok2api.Account.{Account, Pool, ready, is_ready}
use grok2api.Scheduler.State.{Scheduler, Accounts, empty, remove_ready, put}

-- Whether the account of an id is in the ready pool.
abbrev pub in_pool : Option Account → Bool
in_pool none = false
in_pool (some a) = is_ready a.pool

pub record Sound (accounts : Accounts) (ready hot : List Text) (size : ℕ) : Type 0 where
  pub exact : (id : Text) → mem id ready ≡ in_pool (lookup id accounts)
  pub keyed : (id : Text) (a : Account) → lookup id accounts ≡ some a → a.id ≡ id
  pub no_repeat : Distinct ready
  pub one_entry : Distinct (keys accounts)
  pub hot_ready : (id : Text) → mem id hot ≡ true → mem id ready ≡ true
  pub hot_once : Distinct hot
  pub hot_bound : 0 < size → length hot ≤ size

-- The ready list holds each ready account once and nothing else; an account stands under its own
-- id; the hot set is part of the ready list, and within its size.
abbrev pub IsSound : Scheduler → Type 0
IsSound s = Sound s.accounts s.ready s.hot s.active_size

pub empty-IsSound : IsSound empty
unfolding mem lookup
empty-IsSound = record {
  exact = λ id. refl;
  keyed = λ id a e. cc;
  no_repeat = tt;
  one_entry = tt;
  hot_ready = λ id e. cc;
  hot_once = tt;
  hot_bound = λ p. omega arith;
}

module _ {accounts : Accounts} {ready hot : List Text} {size : ℕ} where
  -- A write that leaves the pool and the id alone.
  pub Sound-insert :
      (id : Text) (a b : Account)
      → lookup id accounts ≡ some a
      → b.id ≡ a.id
      → is_ready b.pool ≡ is_ready a.pool
      → Sound accounts ready hot size
      → Sound (insert id b accounts) ready hot size
  Sound-insert id a b found same_id same_pool v = record {
    exact = λ j. ground (arith, v.exact j, lookup-insert id j b accounts, text_eq_iff id j);
    keyed = λ j c e.
        ground
          (arith, v.keyed j c, v.keyed id a found, lookup-insert id j b accounts, text_eq_iff id j);
    no_repeat = v.no_repeat;
    one_entry = insert-Distinct id b accounts v.one_entry;
    hot_ready = v.hot_ready;
    hot_once = v.hot_once;
    hot_bound = v.hot_bound;
  }

  -- A write that takes the account out of the pool, with its id off the ready list.
  pub Sound-insert_parked :
      (id : Text) (b : Account)
      → b.id ≡ id
      → is_ready b.pool ≡ false
      → Sound accounts ready hot size
      → Sound (insert id b accounts) (remove id ready) (remove id hot) size
  Sound-insert_parked id b same_id parked v = record {
    exact = λ j. ground (arith, v.exact j, lookup-insert id j b accounts, mem-remove id j ready);
    keyed = λ j c e. ground (arith, v.keyed j c, lookup-insert id j b accounts, text_eq_iff id j);
    no_repeat = remove-Distinct id ready v.no_repeat;
    one_entry = insert-Distinct id b accounts v.one_entry;
    hot_ready = λ j h. ground (arith, v.hot_ready j, mem-remove id j hot, mem-remove id j ready);
    hot_once = remove-Distinct id hot v.hot_once;
    hot_bound = λ p. ground (arith, v.hot_bound p, length-remove-le id hot);
  }

pub cond-IsSound :
    (b : Bool) (s t : Scheduler) → IsSound s → IsSound t → IsSound (if b then s else t)
cond-IsSound true s t v w = v
cond-IsSound false s t v w = w
