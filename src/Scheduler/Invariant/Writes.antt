-- ===== src/Scheduler/Invariant/Writes.antt =====
-- The ways in which the scheduler writes its account map keep it sound.
use grok2api.Prelude.{
  ℕ, ◌≡◌, refl, ap, sym, ◌∙◌, false, Option, none, some, List, [], ◌∷◌, ◌++◌, arith, if◌then◌else◌,
  Text, text_eq_iff, lookup, insert, erase, map_values, mem, remove, lookup-insert, lookup-erase,
  lookup-map_values, mem-remove, mem-append, mem-one, length-remove-le, remove-Distinct,
  insert-Distinct, erase-Distinct, keys-map_values, append_one-Distinct,
}
use mathlib.Core.Option
use grok2api.Account.{Account, is_ready}
use grok2api.Scheduler.State.{Accounts, new}
use grok2api.Scheduler.Invariant.{Sound, in_pool}

module _ {accounts : Accounts} {ready hot : List Text} {size : ℕ} where
  -- A new account under its own id, listed if it is ready.
  pub Sound-add :
      (id : Text) (b : Account)
      → b.id ≡ id
      → mem id ready ≡ false
      → Sound accounts ready hot size
      → Sound (insert id b accounts) (if is_ready b.pool then ready ++ id ∷ [] else ready) hot size
  Sound-add id b same_id new v = record {
    exact = λ j. ground (
      arith,
      v.exact j,
      lookup-insert id j b accounts,
      mem-append j ready (id ∷ []),
      mem-one id j,
      text_eq_iff id j,
    );
    keyed = λ j c e. ground (arith, v.keyed j c, lookup-insert id j b accounts, text_eq_iff id j);
    no_repeat = ground (arith, v.no_repeat, append_one-Distinct id ready);
    one_entry = insert-Distinct id b accounts v.one_entry;
    hot_ready = λ j h. ground (arith, v.hot_ready j, mem-append j ready (id ∷ []));
    hot_once = v.hot_once;
    hot_bound = v.hot_bound;
  }

  -- An account that replaces the one of its id, and stands last if it is ready.
  pub Sound-upsert :
      (id : Text) (b : Account)
      → b.id ≡ id
      → Sound accounts ready hot size
      → Sound
          (insert id b accounts)
          (if is_ready b.pool then remove id ready ++ id ∷ [] else remove id ready)
          (remove id hot)
          size
  Sound-upsert id b same_id v = record {
    exact = λ j. ground (
      arith,
      v.exact j,
      lookup-insert id j b accounts,
      mem-remove id j ready,
      mem-append j (remove id ready) (id ∷ []),
      mem-one id j,
      text_eq_iff id j,
    );
    keyed = λ j c e. ground (arith, v.keyed j c, lookup-insert id j b accounts, text_eq_iff id j);
    no_repeat = ground (
      arith,
      remove-Distinct id ready v.no_repeat,
      mem-remove id id ready,
      text_eq_iff id id,
      append_one-Distinct id (remove id ready),
    );
    one_entry = insert-Distinct id b accounts v.one_entry;
    hot_ready = λ j h. ground (
      arith,
      v.hot_ready j,
      mem-remove id j hot,
      mem-remove id j ready,
      mem-append j (remove id ready) (id ∷ []),
    );
    hot_once = remove-Distinct id hot v.hot_once;
    hot_bound = λ p. ground (arith, v.hot_bound, length-remove-le id hot);
  }

  pub Sound-erase :
      (id : Text)
      → Sound accounts ready hot size
      → Sound (erase id accounts) (remove id ready) (remove id hot) size
  Sound-erase id v = record {
    exact = λ j. ground (arith, v.exact j, lookup-erase id j accounts, mem-remove id j ready);
    keyed = λ j c e. ground (arith, v.keyed j c, lookup-erase id j accounts);
    no_repeat = remove-Distinct id ready v.no_repeat;
    one_entry = erase-Distinct id accounts v.one_entry;
    hot_ready = λ j h. ground (arith, v.hot_ready j, mem-remove id j hot, mem-remove id j ready);
    hot_once = remove-Distinct id hot v.hot_once;
    hot_bound = λ p. ground (arith, v.hot_bound, length-remove-le id hot);
  }

  -- A change of every account that keeps the ids and the pools.
  pub Sound-map_values :
      (f : Account → Account)
      → ((a : Account) → ((f a).id ≡ a.id) × (is_ready (f a).pool ≡ is_ready a.pool))
      → Sound accounts ready hot size
      → Sound (map_values f accounts) ready hot size
  Sound-map_values f same v = record {
    exact = λ j.
        v.exact j ∙ pool_of (lookup j accounts) ∙ ap in_pool (sym (lookup-map_values f j accounts));
    keyed =
        λ j c e. under (lookup j accounts) (v.keyed j) c (sym (lookup-map_values f j accounts) ∙ e);
    no_repeat = v.no_repeat;
    one_entry = rw (keys-map_values f accounts) v.one_entry;
    hot_ready = v.hot_ready;
    hot_once = v.hot_once;
    hot_bound = v.hot_bound;
  }
    where
      pool_of : (o : Option Account) → in_pool o ≡ in_pool (Option.map f o)
      pool_of none = refl
      pool_of (some a) = sym (same a).1

      under :
          {j : Text} (o : Option Account)
          → ((a : Account) → o ≡ some a → a.id ≡ j)
          → (c : Account) → Option.map f o ≡ some c
          → c.id ≡ j
      under none k c e = cc
      under (some a) k c e = ground (arith, k a refl, (same a).0)
