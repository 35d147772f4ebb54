-- ===== src/Scheduler/Invariant/Promote.antt =====
-- `PromoteDue` keeps the scheduler sound: it lists each account that it promotes, once.
use mathlib.Core.Option
use grok2api.Prelude.{
  ℕ, ◌≡◌, refl, sym, ◌∙◌, Bool, true, false, ◌||◌, Option, none, some, List, [], ◌∷◌, ◌++◌, map,
  arith, Text, text_eq_iff, lookup, map_values, mem, keys, Distinct, lookup-map_values, mem-append,
  keys-map_values, mem-keys, append-Distinct, Time, Bool-cases, inl, inr,
}
use grok2api.Account.{Account, is_ready, recover_cooldown}
use grok2api.Scheduler.State.{Scheduler, Accounts}
use grok2api.Scheduler.Manage.{promoted, promote_due, is_nil}
use grok2api.Scheduler.Invariant.{Sound, IsSound, in_pool}

-- What the cooldown timer does to one account.
recovered : Time → Account → Account
recovered now a = (recover_cooldown now now a).0

due : Time → Account → Bool
due now a = (recover_cooldown now now a).1

recovered_lem :
    (now : Time) (a : Account)
    → ((recovered now a).id ≡ a.id)
      × (is_ready (recovered now a).pool ≡ (is_ready a.pool || due now a))
      × (due now a ≡ true → is_ready a.pool ≡ false)
unfolding recovered due recover_cooldown
recovered_lem now a = ground arith

recovered-id : (now : Time) (a : Account) → (recover_cooldown now now a).0.id ≡ a.id
unfolding recover_cooldown
recovered-id now a = ground arith

due_of : Time → Option Account → Bool
due_of now none = false
due_of now (some a) = due now a

-- The ids that are promoted.
abbrev ids : Time → Accounts → List Text
ids now m = map (λ a. a.id) (promoted now m)

abbrev KeyedBy : Accounts → Type 0
KeyedBy m = (id : Text) (a : Account) → lookup id m ≡ some a → a.id ≡ id

KeyedBy-tail :
    (k : Text) (a : Account) (m : Accounts)
    → Distinct (k ∷ keys m)
    → KeyedBy ((k, a) ∷ m)
    → KeyedBy m
unfolding lookup
KeyedBy-tail k a m d f id b e = f id b (ground (arith, mem-keys k m, text_eq_iff k id))

mem-ids :
    (now : Time) (j : Text) (m : Accounts)
    → Distinct (keys m)
    → KeyedBy m
    → mem j (ids now m) ≡ due_of now (lookup j m)
unfolding mem promoted lookup due_of due
mem-ids now j [] d f = refl
mem-ids now j ((k, a) ∷ m) d f = ground (
  arith,
  mem-ids now j m d.1 (KeyedBy-tail k a m d f),
  f k a (unfold lookup in ground (arith, text_eq_iff k k)),
  recovered-id now a,
  text_eq_iff k j,
  mem-keys k m,
)

ids-Distinct : (now : Time) (m : Accounts) → Distinct (keys m) → KeyedBy m → Distinct (ids now m)
unfolding promoted
ids-Distinct now [] d f = tt
ids-Distinct now ((k, a) ∷ m) d f = ground (
  arith,
  ids-Distinct now m d.1 (KeyedBy-tail k a m d f),
  mem-ids now (recover_cooldown now now a).0.id m d.1 (KeyedBy-tail k a m d f),
  f k a (unfold lookup in ground (arith, text_eq_iff k k)),
  recovered-id now a,
  mem-keys k m,
  due_of_missing,
)
  where
    due_of_missing : due_of now none ≡ false
    due_of_missing = unfold due_of in refl

module _ (now : Time) {accounts : Accounts} {ready hot : List Text} {size : ℕ} where
  Sound-promote :
      Sound accounts ready hot size
      → Sound (map_values (recovered now) accounts) (ready ++ ids now accounts) hot size
  Sound-promote v = record {
    exact = λ j. ground (
      arith,
      v.exact j,
      mem-append j ready (ids now accounts),
      mem-ids now j accounts v.one_entry v.keyed,
      lookup-map_values (recovered now) j accounts,
      pool_of (lookup j accounts),
    );
    keyed = λ j c e.
        under j (lookup j accounts) (v.keyed j) c
          (sym (lookup-map_values (recovered now) j accounts) ∙ e);
    no_repeat =
        append-Distinct ready (ids now accounts) v.no_repeat
          (ids-Distinct now accounts v.one_entry v.keyed)
          (λ k h.
            mem-ids now k accounts v.one_entry v.keyed
            ∙ not_due (lookup k accounts) (sym (v.exact k) ∙ h));
    one_entry = rw (keys-map_values (recovered now) accounts) v.one_entry;
    hot_ready = λ j h. ground (arith, v.hot_ready j h, mem-append j ready (ids now accounts));
    hot_once = v.hot_once;
    hot_bound = v.hot_bound;
  }
    where
      pool_of :
          (o : Option Account)
          → in_pool (Option.map (recovered now) o) ≡ (in_pool o || due_of now o)
      pool_of none = unfold due_of in refl
      pool_of (some a) = unfold due_of in (recovered_lem now a).1

      not_due : (o : Option Account) → in_pool o ≡ true → due_of now o ≡ false
      not_due none e = unfold due_of in refl
      not_due (some a) e = unfold due_of in ground (arith, (recovered_lem now a).2)

      under :
          (j : Text) (o : Option Account)
          → ((a : Account) → o ≡ some a → a.id ≡ j)
          → (c : Account) → Option.map (recovered now) o ≡ some c
          → c.id ≡ j
      under j none k c e = cc
      under j (some a) k c e = ground (arith, k a refl, (recovered_lem now a).0)

pub promote_due-IsSound : (now : Time) (s : Scheduler) → IsSound s → IsSound (promote_due now s).0
unfolding promote_due recovered
promote_due-IsSound now s v = elim (Bool-cases (is_nil (promoted now s.accounts))) [
  | inl idle ↦ rw idle (Sound-promote now v)
  | inr some_up ↦ rw some_up (Sound-promote now v)
]
