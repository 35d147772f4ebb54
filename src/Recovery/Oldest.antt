-- ===== src/Recovery/Oldest.antt =====
-- Which accounts `RecoverQuota` chooses when more are due than a tick takes.
use grok2api.Prelude.{
  ℕ, zero, suc, ◌≡◌, ◌⊎◌, ◌<◌, refl, ap, text_lt, length, Bool, true, false, List, [], ◌∷◌, map,
  All, All-map, take, drop, sort_stable, insert_stable, sort_stable-Ordered, Ordered-take-drop,
  if◌then◌else◌, inl, inr, arith, Text, text_eq_iff, text_lt_irrefl, text_across, text_lt_trans,
  mem, Time,
}
use grok2api.Account.{Account}
use grok2api.Recovery.Base.{World, listed}
use grok2api.Recovery.Batch.{candidates, batch, quota_before}
use grok2api.Recovery.Quota.{quota_due, quota_batch, max_quota_probes_per_tick}

-- The order of the pass: by deadline, then by id.
before_apart : (a b : Account) → quota_before a b ≡ true → quota_before b a ≡ false
unfolding quota_before
before_apart a b h = ground (arith, text_lt_irrefl a.id, text_lt_trans a.id b.id a.id)

before_across :
    (a b c : Account)
    → quota_before b a ≡ false
    → quota_before c b ≡ false
    → quota_before c a ≡ false
unfolding quota_before
before_across a b c h k = ground (arith, text_across a.id b.id c.id)

module _ {ℓ κ} {A : Type ℓ} (P : A → Type κ) where
  either-All : (b : Bool) (xs ys : List A) → All P (if b then xs else ys) → All P xs ⊎ All P ys
  either-All true xs ys h = inl h
  either-All false xs ys h = inr h

  insert_stable-All :
      (less : A → A → Bool) (x : A) (xs : List A) → All P (insert_stable less x xs) → P x × All P xs
  unfolding insert_stable
  insert_stable-All less x [] h = h
  insert_stable-All less x (y ∷ ys) h = elim (either-All (less y x) _ _ h) [
    | inl k ↦ let t = insert_stable-All less x ys k.1 in (t.0, (k.0, t.1))
    | inr k ↦ k
  ]

  pub sort_stable-All : (less : A → A → Bool) (xs : List A) → All P (sort_stable less xs) → All P xs
  unfolding sort_stable
  sort_stable-All less [] h = tt
  sort_stable-All less (x ∷ xs) h =
      let t = insert_stable-All less x (sort_stable less xs) h in (t.0, sort_stable-All less xs t.1)

  take_drop-All : (n : ℕ) (xs : List A) → All P (take n xs) → All P (drop n xs) → All P xs
  take_drop-All zero xs h k = k
  take_drop-All (suc n) [] h k = tt
  take_drop-All (suc n) (x ∷ xs) h k = (h.0, take_drop-All n xs h.1 k)

All-swap {ℓ κ} :
    {A : Type ℓ} (R : A → A → Type κ) (xs ys : List A)
    → All (λ x. All (λ y. R x y) ys) xs
    → All (λ y. All (λ x. R x y) xs) ys
All-swap R xs [] h = tt
All-swap R xs (y ∷ ys) h = (All-map xs (λ x k. k.0) h, All-swap R xs ys (All-map xs (λ x k. k.1) h))

All-both {ℓ κ μ ν} :
    {A : Type ℓ} {P : A → Type κ} {Q : A → Type μ} {R : A → Type ν} (xs : List A)
    → ((x : A) → P x → Q x → R x)
    → All P xs
    → All Q xs
    → All R xs
All-both [] f h k = tt
All-both (x ∷ xs) f h k = (f x h.0 k.0, All-both xs f h.1 k.1)

-- The chosen ids.
abbrev pub ids : List Account → List Text
ids = map (λ a. a.id)

pub ids-All :
    (items : List Account) (more : Text → Bool)
    → ((k : Text) → mem k (ids items) ≡ true → more k ≡ true)
    → All (λ a. more a.id ≡ true) items
unfolding mem
ids-All [] more h = tt
ids-All (a ∷ items) more h =
    (h a.id (ground (arith, text_eq_iff a.id a.id)), ids-All items more (λ k e. h k (ground arith)))

module _ {κ} (P : Account → Type κ) where
  found-All :
      (b : Bool) (a : Account) (found : List Account) (m n : ℕ)
      → let r : List Account × ℕ = if b then (a ∷ found, m) else (found, n) in
        All P r.0 → (b ≡ true → P a) × All P found
  found-All true a found m n h = (λ e. h.0, h.1)
  found-All false a found m n h = (λ e. cc, h)

  pub candidates-All :
      (due : Account → Bool) (items : List Account)
      → All P (candidates due items).0
      → All (λ a. due a ≡ true → P a) items
  unfolding candidates
  candidates-All due [] h = tt
  candidates-All due (a ∷ items) h =
      let t = found-All (due a) a (candidates due items).0 _ _ h in
      (t.0, candidates-All due items t.1)

-- Where a deadline stands among the due ones: one that is not set is 0, the least.
abbrev pub IsNoLaterThan : Account → Account → Type 0
IsNoLaterThan a c =
    (c.retry_at < a.retry_at) ⊎ ((c.retry_at ≡ a.retry_at) × (text_lt a.id c.id ≡ false))

no_later : (a c : Account) → quota_before a c ≡ false → IsNoLaterThan a c
unfolding quota_before
no_later a c h = ground arith

All-every {ℓ κ} : {A : Type ℓ} {P : A → Type κ} (xs : List A) → ((x : A) → P x) → All P xs
All-every [] f = tt
All-every (x ∷ xs) f = (f x, All-every xs f)

-- What is dropped from a list is dropped after as many as were to be taken.
length-take-drop {ℓ} :
    {A : Type ℓ} (n : ℕ) (xs : List A) → All (λ y. length (take n xs) ≡ n) (drop n xs)
length-take-drop zero xs = All-every xs (λ y. refl)
length-take-drop (suc n) [] = tt
length-take-drop (suc n) (x ∷ xs) = All-map (drop n xs) (λ y e. ap suc e) (length-take-drop n xs)

-- An account that is due is left for a later tick only when 256 are chosen, each with an earlier
-- deadline, or with the same deadline and an id that does not come after its own; no deadline counts
-- as the earliest.
pub quota_batch-oldest :
    (now : Time) (w : World)
    → let chosen = (quota_batch now w).0 in
      All
        (λ a.
          quota_due now a ≡ true
          → (mem a.id (ids chosen) ≡ true) ⊎ ((length chosen ≡ 256) × All (IsNoLaterThan a) chosen))
        (listed w.store)
unfolding quota_batch batch
quota_batch-oldest now w =
    let found = (candidates (quota_due now) (listed w.store)).0 in
    let sorted = sort_stable quota_before found in
    let chosen = take max_quota_probes_per_tick sorted in
    let later = drop max_quota_probes_per_tick sorted in
    let order =
      Ordered-take-drop quota_before max_quota_probes_per_tick sorted
        (sort_stable-Ordered quota_before before_apart before_across found) in
    candidates-All _ (quota_due now) (listed w.store) (
      sort_stable-All _ quota_before found (
        take_drop-All _ max_quota_probes_per_tick sorted
          (All-map chosen (λ a h. inl h) (ids-All chosen (λ k. mem k (ids chosen)) (λ k e. e)))
          (All-both later (λ a n h. inr (n, All-map chosen (λ c. no_later a c) h))
            (length-take-drop max_quota_probes_per_tick sorted)
            (All-swap (λ c a. quota_before a c ≡ false) chosen later order))))
