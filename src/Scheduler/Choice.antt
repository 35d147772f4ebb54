-- ===== src/Scheduler/Choice.antt =====
-- Which account `pickReadyLocked` chooses: the first loop.
pub mod Balance
pub mod Best
pub mod Whole
use grok2api.Prelude.{
  ℕ, suc, ◌≤◌, ◌<◌, ◌≡◌, ◌≢◌, refl, ap, sym, ◌∙◌, subst, Bool, true, false, not, ◌&&◌, ◌||◌, Option,
  none, some, List, [], ◌∷◌, ◌++◌, arith, ltb, leb, ◌==◌, ==_iff, if◌then◌else◌, length, All,
  All-append, append_one-ne-nil, Text, text_eq, text_eq_iff, text_eq_refl, text_eq→eq, lookup,
  insert, lookup-insert, mem, mem-one, mem-append, remove, mem-remove, length-remove-le, Time,
  Duration, Option-cases, Bool-cases, inl, inr,
}
use grok2api.Account.{Account, available, park_known_exhausted}
use grok2api.Scheduler.State.{Scheduler, Accounts, put, remove_ready, bump_revision}
use grok2api.Scheduler.Hot.{eligible}
use grok2api.Scheduler.Select.{Scan, consider, visit_item, visit, scan, park_retry}
use grok2api.Scheduler.Invariant.Pick.{park-unready}

-- The account of `id` can be leased: it is ready with room and quota left, and the hot set admits it.
abbrev pub Serves : Scheduler → Text → Account → Type 0
Serves s id a = (lookup id s.accounts ≡ some a) × (available a ≡ true) × (eligible s id ≡ true)

-- Parking the account `a` of `id` leaves every account that can serve as it was.
pub park-Serves :
    (s : Scheduler) (id : Text) (a b : Account) (n : ℕ) (j : Text) (c : Account)
    → lookup id s.accounts ≡ some a
    → available a ≡ false
    → Serves s j c
    → Serves
        (record s {
          accounts = insert id b s.accounts;
          ready = remove id s.ready;
          hot = remove id s.hot;
          revision = n;
        })
        j
        c
unfolding eligible
park-Serves s id a b n j c found parked v = (
  ground (arith, lookup-insert id j b s.accounts, text_eq_iff id j),
  v.1,
  ground (arith, mem-remove id j s.hot, length-remove-le id s.hot, text_eq_iff id j),
)

-- A candidate at the priority `h`.
abbrev pub Fits : Scheduler → ℕ → Text → Type 0
Fits s h id = (a : Account) × Serves s id a × (a.priority ≡ h)

-- What holds of the variables of the loop.
pub record Good (st : Scan) : Type 0 where
  pub fit : All (Fits st.sched st.highest) st.candidates
  pub some_one : st.has_candidate ≡ true → st.candidates ≢ []
  pub no_one : st.has_candidate ≡ false → st.candidates ≡ []

-- The loop has passed an account that can serve.
pub record Covers (st : Scan) (j : Text) (b : Account) : Type 0 where
  pub found : st.has_candidate ≡ true
  pub below : b.priority ≤ st.highest
  pub listed : b.priority ≡ st.highest → mem j st.candidates ≡ true

eq_self : (n : ℕ) → (n == n) ≡ true
eq_self n = (==_iff n n).1 refl

module _ (id : Text) (a : Account) (st : Scan) where
  pub consider-Good : Serves st.sched id a → Good st → Good (consider id a st)
  unfolding consider
  consider-Good v g = elim (Bool-cases (not st.has_candidate || ltb st.highest a.priority)) [
    | inl fresh ↦
        rw (fresh, eq_self a.priority)
          (record { fit = ((a, v, refl), tt); some_one = λ h e. cc; no_one = λ h. cc })
    | inr old ↦ rw old (elim (Bool-cases (a.priority == st.highest)) [
      | inl same ↦ rw same (record {
        fit =
            All-append (Fits st.sched st.highest) st.candidates (id ∷ []) g.fit
              ((a, v, (==_iff _ _).0 same), tt);
        some_one = λ h. append_one-ne-nil st.candidates id;
        no_one = λ h. ground arith;
      })
      | inr lower ↦ rw lower g
    ])
  ]

  pub consider-Covers_self : Covers (consider id a st) id a
  unfolding consider
  consider-Covers_self = record {
    found = ground arith;
    below = ground arith;
    listed =
        λ e. ground (arith, mem-append id st.candidates (id ∷ []), mem-one id id, text_eq_refl id);
  }

  pub consider-Covers : (j : Text) (b : Account) → Covers st j b → Covers (consider id a st) j b
  unfolding consider
  consider-Covers j b c = record {
    found = ground (arith, c.found);
    below = ground (arith, c.below, c.found);
    listed = λ e. ground (arith, c.below, c.found, c.listed, mem-append j st.candidates (id ∷ []));
  }

-- The state after a round that parks the account `a` of `id`.
abbrev parked_scan : Time → Text → Account → Scan → Scan
parked_scan now id a st = record st {
  sched =
      bump_revision (
        remove_ready id (put id (park_known_exhausted now now (park_retry st.sched) a).0 st.sched));
}

-- A round passes the account over, parks it or considers it.
pub visit_cases {ℓ} :
    (P : Scan → Type ℓ) (now : Time) (id : Text) (st : Scan)
    → P st
    → ((a : Account)
        → lookup id st.sched.accounts ≡ some a
        → available a ≡ false
        → P (parked_scan now id a st))
    → ((a : Account) → Serves st.sched id a → P (consider id a st))
    → P (visit now id st)
unfolding visit visit_item
visit_cases P now id st passed parks considers = elim (Option-cases (lookup id st.sched.accounts)) [
  | inl missing ↦ rw (missing, visit) passed
  | inr (a, found) ↦ rw (found, visit) (by_account a found)
]
  where
    by_account : (a : Account) → lookup id st.sched.accounts ≡ some a → P (visit_item now id a st)
    by_account a found =
        elim (Bool-cases (park_known_exhausted now now (park_retry st.sched) a).1) [
          | inl p ↦ rw p (parks a found (park-unready now (park_retry st.sched) a p).3)
          | inr stays ↦ rw stays (elim (Bool-cases (available a)) [
            | inr busy ↦ rw busy passed
            | inl free ↦ rw free (elim (Bool-cases (eligible st.sched id)) [
              | inr cold ↦ rw cold passed
              | inl hot ↦ rw hot (considers a (found, free, hot))
            ])
          ])
        ]

pub All-map {ℓ κ μ} :
    {A : Type ℓ} {P : A → Type κ} {Q : A → Type μ} (f : (x : A) → P x → Q x) (xs : List A)
    → All P xs
    → All Q xs
All-map f [] h = tt
All-map f (x ∷ xs) h = (f x h.0, All-map f xs h.1)
