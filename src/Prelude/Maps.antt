-- ===== src/Prelude/Maps.antt =====
-- Go's `map[string]V` as an association list, and `map[string]struct{}` as a list of keys. The
-- order in which Go ranges over a map is the order of the list.
use Prim.Native.Nat.{ℕ, zero, suc, ◌+◌, ◌≤◌}
use mathlib.Core.Path.{◌≡◌, refl, ap}
use mathlib.Core.Bool.{Bool, true, false, not, ◌&&◌, ◌||◌}
use mathlib.Core.Option
use mathlib.Core.Option.{Option, none, some}
use mathlib.Core.List.{List, [], ◌∷◌, ◌++◌}
use native.Mathlib.Omega.{arith}
use grok2api.Prelude.Tests.{if◌then◌else◌}
use grok2api.Prelude.Lists.{length, take}
use grok2api.Prelude.Strings.{Text, text_eq, text_eq_iff}

module _ {ℓ} {V : Type ℓ} where
  -- `m[k]`
  unfoldable pub lookup : Text → List (Text × V) → Option V
  lookup k [] = none
  lookup k ((j, v) ∷ m) = if text_eq j k then some v else lookup k m

  -- `m[k] = v`
  unfoldable pub insert : Text → V → List (Text × V) → List (Text × V)
  insert k v [] = (k, v) ∷ []
  insert k v ((j, w) ∷ m) = if text_eq j k then (k, v) ∷ m else (j, w) ∷ insert k v m

  -- `delete(m, k)`
  unfoldable pub erase : Text → List (Text × V) → List (Text × V)
  erase k [] = []
  erase k ((j, v) ∷ m) = if text_eq j k then erase k m else (j, v) ∷ erase k m

  -- A range over the map that keeps the entries passing a test.
  unfoldable pub keep : (Text → V → Bool) → List (Text × V) → List (Text × V)
  keep p [] = []
  keep p ((j, v) ∷ m) = if p j v then (j, v) ∷ keep p m else keep p m

  pub lookup-insert :
      (k j : Text) (v : V) (m : List (Text × V))
      → lookup j (insert k v m) ≡ (if text_eq k j then some v else lookup j m)
  unfolding lookup insert
  lookup-insert k j v [] = refl
  lookup-insert k j v ((i, w) ∷ m) =
      ground (arith, text_eq_iff k j, text_eq_iff i k, text_eq_iff i j, lookup-insert k j v m)

  pub lookup-erase :
      (k j : Text) (m : List (Text × V))
      → lookup j (erase k m) ≡ (if text_eq k j then none else lookup j m)
  unfolding lookup erase
  lookup-erase k j [] = ground arith
  lookup-erase k j ((i, w) ∷ m) =
      ground (arith, text_eq_iff k j, text_eq_iff i k, text_eq_iff i j, lookup-erase k j m)

  pub length-insert-le :
      (k : Text) (v : V) (m : List (Text × V)) → length (insert k v m) ≤ length m + 1
  unfolding insert
  length-insert-le k v [] = omega arith
  length-insert-le k v ((j, w) ∷ m) = ground (arith, length-insert-le k v m)

module _ {ℓ κ} {V : Type ℓ} {W : Type κ} where
  -- A range over the map that changes every value.
  unfoldable pub map_values : (V → W) → List (Text × V) → List (Text × W)
  map_values f [] = []
  map_values f ((j, v) ∷ m) = (j, f v) ∷ map_values f m

  pub lookup-map_values :
      (f : V → W) (k : Text) (m : List (Text × V))
      → lookup k (map_values f m) ≡ Option.map f (lookup k m)
  unfolding lookup map_values
  lookup-map_values f k [] = refl
  lookup-map_values f k ((j, v) ∷ m) = ground (arith, lookup-map_values f k m)

-- Membership in a set of keys, or in a slice of them.
unfoldable pub mem : Text → List Text → Bool
mem k [] = false
mem k (j ∷ ks) = text_eq j k || mem k ks

-- Every element that is not `k`, in order.
unfoldable pub remove : Text → List Text → List Text
remove k [] = []
remove k (j ∷ ks) = if text_eq j k then remove k ks else j ∷ remove k ks

abbrev pub Distinct : List Text → Type 0
Distinct [] = Unit {0}
Distinct (k ∷ ks) = (mem k ks ≡ false) × Distinct ks

pub mem-remove :
    (k j : Text) (ks : List Text) → mem j (remove k ks) ≡ (not (text_eq k j) && mem j ks)
unfolding mem remove
mem-remove k j [] = ground arith
mem-remove k j (i ∷ ks) =
    ground (arith, text_eq_iff k j, text_eq_iff i k, text_eq_iff i j, mem-remove k j ks)

pub mem-append : (k : Text) (xs ys : List Text) → mem k (xs ++ ys) ≡ (mem k xs || mem k ys)
unfolding mem
mem-append k [] ys = refl
mem-append k (x ∷ xs) ys = ground (arith, mem-append k xs ys)

pub mem-one : (k j : Text) → mem j (k ∷ []) ≡ text_eq k j
unfolding mem
mem-one k j = ground arith

pub mem-head : (k : Text) (ks : List Text) → mem k (k ∷ ks) ≡ true
unfolding mem
mem-head k ks = ground (arith, text_eq_iff k k)

pub length-remove-le : (k : Text) (ks : List Text) → length (remove k ks) ≤ length ks
unfolding remove
length-remove-le k [] = omega arith
length-remove-le k (j ∷ ks) = ground (arith, length-remove-le k ks)

pub remove-Distinct : (k : Text) (ks : List Text) → Distinct ks → Distinct (remove k ks)
unfolding remove
remove-Distinct k [] d = tt
remove-Distinct k (j ∷ ks) d = ground (arith, mem-remove k j ks, remove-Distinct k ks d.1)

abbrev pub is_some {ℓ} : {A : Type ℓ} → Option A → Bool
is_some none = false
is_some (some a) = true

abbrev pub keys {ℓ} : {V : Type ℓ} → List (Text × V) → List Text
keys [] = []
keys ((k, v) ∷ m) = k ∷ keys m

module _ {ℓ} {V : Type ℓ} where
  pub mem-keys : (k : Text) (m : List (Text × V)) → mem k (keys m) ≡ is_some (lookup k m)
  unfolding mem lookup
  mem-keys k [] = refl
  mem-keys k ((j, v) ∷ m) = ground (arith, mem-keys k m)

  pub insert-Distinct :
      (k : Text) (v : V) (m : List (Text × V)) → Distinct (keys m) → Distinct (keys (insert k v m))
  unfolding insert
  insert-Distinct k v [] d = unfold mem in (refl, tt)
  insert-Distinct k v ((j, w) ∷ m) d = ground (
    arith,
    text_eq_iff j k,
    text_eq_iff k j,
    mem-keys j (insert k v m),
    mem-keys j m,
    lookup-insert k j v m,
    insert-Distinct k v m d.1,
  )

  pub erase-Distinct :
      (k : Text) (m : List (Text × V)) → Distinct (keys m) → Distinct (keys (erase k m))
  unfolding erase
  erase-Distinct k [] d = tt
  erase-Distinct k ((j, w) ∷ m) d =
      ground
        (arith, mem-keys j (erase k m), mem-keys j m, lookup-erase k j m, erase-Distinct k m d.1)

pub keys-map_values {ℓ κ} :
    {V : Type ℓ} {W : Type κ} (f : V → W) (m : List (Text × V)) → keys (map_values f m) ≡ keys m
unfolding map_values
keys-map_values f [] = refl
keys-map_values f ((k, v) ∷ m) = ap (◌∷◌ k) (keys-map_values f m)

pub append_one-Distinct :
    (k : Text) (ks : List Text) → mem k ks ≡ false → Distinct ks → Distinct (ks ++ k ∷ [])
unfolding mem
append_one-Distinct k [] h d = (refl, tt)
append_one-Distinct k (j ∷ ks) h d = ground (
  arith,
  mem-append j ks (k ∷ []),
  text_eq_iff k j,
  text_eq_iff j k,
  append_one-Distinct k ks (ground arith) d.1,
)

pub append-Distinct :
    (xs ys : List Text)
    → Distinct xs
    → Distinct ys
    → ((k : Text) → mem k xs ≡ true → mem k ys ≡ false)
    → Distinct (xs ++ ys)
unfolding mem
append-Distinct [] ys d e f = e
append-Distinct (x ∷ xs) ys d e f = (
  ground (arith, mem-append x xs ys, f x, text_eq_iff x x),
  append-Distinct xs ys d.1 e (λ k h. f k (ground (arith, h))),
)

pub mem-take : (n : ℕ) (k : Text) (xs : List Text) → mem k (take n xs) ≡ true → mem k xs ≡ true
unfolding mem
mem-take zero k xs h = cc
mem-take (suc n) k [] h = h
mem-take (suc n) k (x ∷ xs) h = ground (arith, mem-take n k xs)

pub take-Distinct : (n : ℕ) (xs : List Text) → Distinct xs → Distinct (take n xs)
take-Distinct zero xs d = tt
take-Distinct (suc n) [] d = tt
take-Distinct (suc n) (x ∷ xs) d = (ground (arith, mem-take n x xs), take-Distinct n xs d.1)
