-- ===== src/Recovery/Walk.antt =====
-- Rules for the loops of a pass.
use grok2api.Prelude.{
  ℕ, ◌≡◌, Bool, true, List, [], ◌∷◌, All, All-sort_stable, All-take, ◌+◌, ◌≤◌, length, length-take,
  length-take-le, arith, Bool-cases, inl, inr, length-sort_stable, sort_stable,
}
use grok2api.Account.{Account}
use grok2api.Recovery.Base.{walk}
use grok2api.Recovery.Batch.{candidates, batch}

-- What every round keeps holds at the end; a round may use what holds of its item.
pub walk-keeps {ℓ κ μ ν} :
    {A : Type ℓ} {S : Type κ} (Q : A → Type μ) (P : S → Type ν) (body : A → S → S)
    → ((a : A) (s : S) → Q a → P s → P (body a s))
    → (items : List A) (s : S) → All Q items
    → P s
    → P (walk body items s)
unfolding walk
walk-keeps Q P body keep [] s q p = p
walk-keeps Q P body keep (a ∷ items) s q p =
    walk-keeps Q P body keep items (body a s) q.1 (keep a s q.0 p)

pub All-trivial {ℓ} : {A : Type ℓ} (items : List A) → All (λ a. Unit {0}) items
All-trivial [] = tt
All-trivial (a ∷ items) = (tt, All-trivial items)

module _ (due : Account → Bool) where
  pub All-candidates {κ} :
      (P : Account → Type κ) (items : List Account)
      → All P items
      → All (λ a. P a × (due a ≡ true)) (candidates due items).0
  unfolding candidates
  All-candidates P [] h = tt
  All-candidates P (a ∷ items) h = elim (Bool-cases (due a)) [
    | inl yes_due ↦ rw yes_due ((h.0, yes_due), All-candidates P items h.1)
    | inr not_due ↦ rw not_due (All-candidates P items h.1)
  ]

  pub candidates-total :
      (items : List Account)
      → length (candidates due items).0 + (candidates due items).1 ≡ length items
  unfolding candidates
  candidates-total [] = omega arith
  candidates-total (a ∷ items) = ground (arith, candidates-total items)

module _ (most : ℕ) (before : Account → Account → Bool) where
  pub All-batch {κ} :
      (P : Account → Type κ) (found : List Account × ℕ)
      → All P found.0
      → All P (batch most before found).0
  unfolding batch
  All-batch P (found, skipped) h = All-take P most _ (All-sort_stable P before found h)

  -- A batch leaves out what it counts as skipped, and is no longer than the limit.
  pub batch-total :
      (found : List Account × ℕ)
      → (length (batch most before found).0 + (batch most before found).1
          ≡ length found.0 + found.1)
        × (length (batch most before found).0 ≤ most)
  unfolding batch
  batch-total (found, skipped) = ground (
    arith,
    length-take most (sort_stable before found),
    length-sort_stable before found,
    length-take-le most (sort_stable before found),
  )
