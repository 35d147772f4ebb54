-- ===== src/Scheduler/Choice/Balance.antt =====
-- Which account `pickReadyLocked` chooses: the second loop, and the strategies.
use grok2api.Prelude.{
  ℕ, ◌%◌, ◌≤◌, ◌≡◌, ◌≢◌, refl, Bool, true, false, Option, none, some, List, [], ◌∷◌, arith, ltb,
  ◌==◌, ==_iff, if◌then◌else◌, length, get_elem?-lt, All, All-append, All-get_elem?,
  append_one-ne-nil, Text, text_lt, lookup, mem, text_eq, text_eq→eq, Option-cases, Bool-cases, inl,
  inr,
}
use grok2api.Account.{Account}
use grok2api.Scheduler.State.{Scheduler, Strategy, fill_first, round_robin}
use grok2api.Scheduler.Select.{balance_one, balance, smallest, choose_by, choose}

-- The pair of the second loop has a load that is at most `n`.
abbrev pub AtMost : Option ℕ × List Text → ℕ → Type 0
AtMost (none, ids) n = ⊥
AtMost (some l, ids) n = l ≤ n

balance_one-AtMost_self :
    (n : ℕ) (id : Text) (acc : Option ℕ × List Text) → AtMost (balance_one n id acc) n
unfolding balance_one
balance_one-AtMost_self n id (none, ids) = omega arith
balance_one-AtMost_self n id (some l, ids) = ground arith

balance_one-AtMost :
    (n m : ℕ) (id : Text) (acc : Option ℕ × List Text)
    → AtMost acc m
    → AtMost (balance_one n id acc) m
unfolding balance_one
balance_one-AtMost n m id (none, ids) h = absurd h
balance_one-AtMost n m id (some l, ids) h = ground arith

balance-AtMost :
    (s : Scheduler) (ids : List Text) (acc : Option ℕ × List Text) (m : ℕ)
    → AtMost acc m
    → AtMost (balance s ids acc) m
unfolding balance
balance-AtMost s [] acc m h = h
balance-AtMost s (id ∷ ids) acc m h = elim (Option-cases (lookup id s.accounts)) [
  | inl missing ↦ rw (missing, balance) (balance-AtMost s ids acc m h)
  | inr (a, found) ↦
      rw (found, balance)
        (balance-AtMost s ids (balance_one a.active id acc) m
          (balance_one-AtMost a.active m id acc h))
]

-- The load that the loop ends with is at most that of each listed account.
pub balance-AtMost-mem :
    (s : Scheduler) (ids : List Text) (acc : Option ℕ × List Text) (j : Text) (b : Account)
    → mem j ids ≡ true
    → lookup j s.accounts ≡ some b
    → AtMost (balance s ids acc) b.active
unfolding balance mem
balance-AtMost-mem s [] acc j b h found = cc
balance-AtMost-mem s (id ∷ ids) acc j b h found = elim (Bool-cases (text_eq id j)) [
  | inl here ↦
      let e : lookup id s.accounts ≡ some b = rw (text_eq→eq id j here) found in
      rw (e, balance)
        (balance-AtMost s ids (balance_one b.active id acc) b.active
          (balance_one-AtMost_self b.active id acc))
  | inr later ↦ elim (Option-cases (lookup id s.accounts)) [
    | inl missing ↦ rw (missing, balance) (balance-AtMost-mem s ids acc j b (ground arith) found)
    | inr (a, e) ↦
        rw (e, balance)
          (balance-AtMost-mem s ids (balance_one a.active id acc) j b (ground arith) found)
  ]
]

module _ (P : Text → Account → Type 0) (s : Scheduler) where
  -- An id whose account has the property `P` and the load `l`.
  abbrev pub Loaded : ℕ → Text → Type 0
  Loaded l id = (a : Account) × (lookup id s.accounts ≡ some a) × P id a × (a.active ≡ l)

  abbrev pub Has : Text → Type 0
  Has id = (a : Account) × (lookup id s.accounts ≡ some a) × P id a

  -- The list is not empty, and holds such ids.
  pub record Lowest (l : ℕ) (ids : List Text) : Type 0 where
    pub loaded : All (Loaded l) ids
    pub inhabited : ids ≢ []

  -- What the pair of the second loop holds.
  abbrev pub Balanced : Option ℕ × List Text → Type 0
  Balanced (none, ids) = ids ≡ []
  Balanced (some l, ids) = Lowest l ids

  balance_one-Balanced :
      (id : Text) (a : Account) (acc : Option ℕ × List Text)
      → lookup id s.accounts ≡ some a
      → P id a
      → Balanced acc
      → Balanced (balance_one a.active id acc)
  unfolding balance_one
  balance_one-Balanced id a (none, ids) found p b = record {
    loaded = ((a, found, p, refl), tt);
    inhabited = λ e. cc;
  }
  balance_one-Balanced id a (some l, ids) found p b = elim (Bool-cases (ltb a.active l)) [
    | inl lower ↦ rw lower (record { loaded = ((a, found, p, refl), tt); inhabited = λ e. cc })
    | inr higher ↦ rw higher (elim (Bool-cases (a.active == l)) [
      | inl same ↦ rw same (record {
        loaded =
            All-append (Loaded l) ids (id ∷ []) b.loaded ((a, found, p, (==_iff _ _).0 same), tt);
        inhabited = append_one-ne-nil ids id;
      })
      | inr other ↦ rw other b
    ])
  ]

  pub balance-Balanced :
      (ids : List Text) (acc : Option ℕ × List Text)
      → All Has ids
      → Balanced acc
      → Balanced (balance s ids acc)
  unfolding balance
  balance-Balanced [] acc h b = b
  balance-Balanced (id ∷ ids) acc (f, h) b =
      rw (f.1, balance)
        (balance-Balanced ids (balance_one f.0.active id acc) h
          (balance_one-Balanced id f.0 acc f.1 f.2 b))

smallest-All {ℓ} :
    (P : Text → Type ℓ) (id : Text) (ids : List Text) → P id → All P ids → P (smallest id ids)
unfolding smallest
smallest-All P id [] p h = p
smallest-All P id (j ∷ ids) p h =
    smallest-All P (if text_lt j id then j else id) ids (either (text_lt j id)) h.1
  where
    either : (b : Bool) → P (if b then j else id)
    either true = h.0
    either false = p

choose_by-All {ℓ} :
    (P : Text → Type ℓ) (how : Strategy) (s : Scheduler) (id : Text) (ids : List Text)
    → All P (id ∷ ids)
    → (j : Text) × ((choose_by how s id ids).1 ≡ some j) × P j
unfolding choose_by
choose_by-All P fill_first s id ids h = (smallest id ids, refl, smallest-All P id ids h.0 h.1)
choose_by-All P round_robin s id ids h =
    let found = get_elem?-lt (id ∷ ids) (s.rr_cursor % length (id ∷ ids)) (omega arith) in
    (found.0, found.1, All-get_elem? P (id ∷ ids) _ h found.1)

-- Either strategy chooses from a list that is not empty.
pub choose-All {ℓ} :
    (P : Text → Type ℓ) (s : Scheduler) (ids : List Text)
    → ids ≢ []
    → All P ids
    → (j : Text) × ((choose s ids).1 ≡ some j) × P j
unfolding choose
choose-All P s [] n h = absurd (n refl)
choose-All P s (id ∷ ids) n h = choose_by-All P s.strategy s id ids h
