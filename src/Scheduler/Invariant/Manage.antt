-- ===== src/Scheduler/Invariant/Manage.antt =====
-- The operations on the account set keep the scheduler sound.
use grok2api.Prelude.{
  ℕ, ◌≡◌, refl, ap, ◌∙◌, true, false, none, List, [], ◌∷◌, map, arith, length-take-le, Text,
  text_eq_iff, lookup, insert, mem, Distinct, lookup-insert, mem-head, mem-take, take-Distinct,
  Option-cases, inl, inr,
}
use grok2api.Account.{Account, or_one}
use grok2api.Scheduler.State.{
  Scheduler, empty, enlist, enlist_all, new, remove_ready, clamp_active, apply_max_active,
  apply_active_size,
}
use grok2api.Scheduler.Manage.{upsert, delete}
use grok2api.Scheduler.Invariant.{IsSound, in_pool, empty-IsSound}
use grok2api.Scheduler.Invariant.Writes.{Sound-add, Sound-upsert, Sound-erase, Sound-map_values}

pub upsert-IsSound : (a : Account) (s : Scheduler) → IsSound s → IsSound (upsert a s)
unfolding upsert remove_ready
upsert-IsSound a s v = Sound-upsert a.id _ refl v

pub delete-IsSound : (id : Text) (s : Scheduler) → IsSound s → IsSound (delete id s).0
unfolding delete remove_ready
delete-IsSound id s v = elim (Option-cases (lookup id s.accounts)) [
  | inl missing ↦ rw (missing, delete) v
  | inr (a, found) ↦ rw (found, delete) (Sound-erase id v)
]

pub apply_max_active-IsSound : (n : ℕ) (s : Scheduler) → IsSound s → IsSound (apply_max_active n s)
unfolding apply_max_active
apply_max_active-IsSound n s v =
    Sound-map_values (clamp_active (or_one n)) (λ a. (ground arith, ground arith)) v

pub apply_active_size-IsSound :
    (n : ℕ) (s : Scheduler) → IsSound s → IsSound (apply_active_size n s)
unfolding apply_active_size
apply_active_size-IsSound n s v = record {
  exact = λ j. ground (arith, v.exact j);
  keyed = λ j a e. ground (arith, v.keyed j a);
  no_repeat = ground (arith, v.no_repeat);
  one_entry = ground (arith, v.one_entry);
  hot_ready = λ j h. ground (arith, v.hot_ready j, mem-take n j s.hot, mem_nil j);
  hot_once = ground (arith, v.hot_once, take-Distinct n s.hot v.hot_once);
  hot_bound = λ p. ground (arith, length-take-le n s.hot);
}
  where
    mem_nil : (j : Text) → mem j [] ≡ false
    mem_nil j = unfold mem in refl

enlist_all-IsSound :
    (items : List Account) (s : Scheduler)
    → Distinct (map (λ a. a.id) items)
    → ((id : Text) → mem id (map (λ a. a.id) items) ≡ true → lookup id s.accounts ≡ none)
    → IsSound s
    → IsSound (enlist_all s items)
unfolding enlist_all enlist
enlist_all-IsSound [] s d new v = v
enlist_all-IsSound (a ∷ rest) s d new v =
    enlist_all-IsSound rest _ d.1 still_new
      (Sound-add a.id _ refl (v.exact a.id ∙ ap in_pool (new a.id (mem-head a.id _))) v)
  where
    still_new :
        (id : Text)
        → mem id (map (λ a. a.id) rest) ≡ true
        → lookup id (insert a.id (record a { max_active = or_one a.max_active }) s.accounts) ≡ none
    still_new id h = ground (
      arith,
      lookup-insert a.id id (record a { max_active = or_one a.max_active }) s.accounts,
      text_eq_iff a.id id,
      new id (unfold mem in ground arith),
    )

-- A scheduler that starts from accounts with distinct ids is sound.
pub new-IsSound :
    (accounts : List Account) → Distinct (map (λ a. a.id) accounts) → IsSound (new accounts)
unfolding new
new-IsSound accounts d =
    enlist_all-IsSound accounts empty d (λ id h. unfold lookup in refl) empty-IsSound
