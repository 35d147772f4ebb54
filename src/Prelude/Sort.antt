-- ===== src/Prelude/Sort.antt =====
-- A stable sort by a Boolean test, and what a prefix of its result is.
use Prim.Native.Nat.{ℕ, zero, suc}
use mathlib.Core.Path.{◌≡◌, refl}
use mathlib.Core.Bool.{Bool, true, false}
use mathlib.Core.Logic.{inl, inr}
use mathlib.Core.List.{List, [], ◌∷◌}
use native.Mathlib.Omega.{arith}
use grok2api.Prelude.Tests.{if◌then◌else◌, Bool-cases}
use grok2api.Prelude.Lists.{length, take, drop, All}

module _ {ℓ} {A : Type ℓ} where
  -- `x` comes before all that it is not after.
  unfoldable pub insert_stable : (A → A → Bool) → A → List A → List A
  insert_stable less x [] = x ∷ []
  insert_stable less x (y ∷ ys) = if less y x then y ∷ insert_stable less x ys else x ∷ y ∷ ys

  -- `sort.SliceStable`
  unfoldable pub sort_stable : (A → A → Bool) → List A → List A
  unfolding insert_stable
  sort_stable less [] = []
  sort_stable less (x ∷ xs) = insert_stable less x (sort_stable less xs)

  -- None comes before one that stands earlier.
  abbrev pub Ordered : (A → A → Bool) → List A → Type ℓ
  Ordered less [] = Unit
  Ordered less (x ∷ xs) = All (λ y. less y x ≡ false) xs × Ordered less xs

  pub All-insert_stable {κ} :
      (P : A → Type κ) (less : A → A → Bool) (x : A) (xs : List A)
      → P x
      → All P xs
      → All P (insert_stable less x xs)
  unfolding insert_stable
  All-insert_stable P less x [] p h = (p, tt)
  All-insert_stable P less x (y ∷ ys) p h = elim (Bool-cases (less y x)) [
    | inl later ↦ rw later (h.0, All-insert_stable P less x ys p h.1)
    | inr here ↦ rw here (p, h)
  ]

  pub All-sort_stable {κ} :
      (P : A → Type κ) (less : A → A → Bool) (xs : List A) → All P xs → All P (sort_stable less xs)
  unfolding sort_stable
  All-sort_stable P less [] h = tt
  All-sort_stable P less (x ∷ xs) h =
      All-insert_stable P less x (sort_stable less xs) h.0 (All-sort_stable P less xs h.1)

  pub length-insert_stable :
      (less : A → A → Bool) (x : A) (xs : List A)
      → length (insert_stable less x xs) ≡ suc (length xs)
  unfolding insert_stable
  length-insert_stable less x [] = refl
  length-insert_stable less x (y ∷ ys) = ground (arith, length-insert_stable less x ys)

  pub length-sort_stable :
      (less : A → A → Bool) (xs : List A) → length (sort_stable less xs) ≡ length xs
  unfolding sort_stable
  length-sort_stable less [] = refl
  length-sort_stable less (x ∷ xs) =
      omega (arith, length-insert_stable less x (sort_stable less xs), length-sort_stable less xs)

  pub All-map {κ μ} :
      {P : A → Type κ} {Q : A → Type μ} (xs : List A) → ((x : A) → P x → Q x) → All P xs → All Q xs
  All-map [] f h = tt
  All-map (x ∷ xs) f h = (f x h.0, All-map xs f h.1)

  pub All-take {κ} : (P : A → Type κ) (n : ℕ) (xs : List A) → All P xs → All P (take n xs)
  All-take P zero xs h = tt
  All-take P (suc n) [] h = tt
  All-take P (suc n) (x ∷ xs) h = (h.0, All-take P n xs h.1)

  pub All-drop {κ} : (P : A → Type κ) (n : ℕ) (xs : List A) → All P xs → All P (drop n xs)
  All-drop P zero xs h = h
  All-drop P (suc n) [] h = tt
  All-drop P (suc n) (x ∷ xs) h = All-drop P n xs h.1

  module _ (less : A → A → Bool) (apart : (x y : A) → less x y ≡ true → less y x ≡ false)
      (across : (x y z : A) → less y x ≡ false → less z y ≡ false → less z x ≡ false) where
    insert_stable-Ordered :
        (x : A) (xs : List A) → Ordered less xs → Ordered less (insert_stable less x xs)
    unfolding insert_stable
    insert_stable-Ordered x [] h = (tt, tt)
    insert_stable-Ordered x (y ∷ ys) (first, h) = elim (Bool-cases (less y x)) [
      | inl later ↦ rw later (
        All-insert_stable (λ z. less z y ≡ false) less x ys (apart y x later) first,
        insert_stable-Ordered x ys h,
      )
      | inr here ↦ rw here ((here, All-map ys (λ z k. across x y z here k) first), (first, h))
    ]

    pub sort_stable-Ordered : (xs : List A) → Ordered less (sort_stable less xs)
    unfolding sort_stable
    sort_stable-Ordered [] = tt
    sort_stable-Ordered (x ∷ xs) = insert_stable-Ordered x _ (sort_stable-Ordered xs)

  -- A prefix of an ordered list holds nothing that one of the rest comes before.
  pub Ordered-take-drop :
      (less : A → A → Bool) (n : ℕ) (xs : List A)
      → Ordered less xs
      → All (λ x. All (λ y. less y x ≡ false) (drop n xs)) (take n xs)
  Ordered-take-drop less zero xs h = tt
  Ordered-take-drop less (suc n) [] h = tt
  Ordered-take-drop less (suc n) (x ∷ xs) h = (All-drop _ n xs h.0, Ordered-take-drop less n xs h.1)
