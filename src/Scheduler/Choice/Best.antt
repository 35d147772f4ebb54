-- ===== src/Scheduler/Choice/Best.antt =====
-- `pickReadyLocked` chooses an account that can serve, and none that can serve outranks it.
use grok2api.Prelude.{
  ℕ, ◌≤◌, ◌<◌, ◌≡◌, ◌≢◌, refl, sym, ◌∙◌, subst, some_injective, mem-head, true, Option, none, some,
  List, [], ◌∷◌, arith, All, Text, mem, Time, ◌⊎◌,
}
use grok2api.Account.{Account, available}
use grok2api.Scheduler.State.{Scheduler, Strategy, fill_first, round_robin}
use grok2api.Scheduler.Hot.{eligible}
use grok2api.Scheduler.Select.{Scan, scan, balance, choose_by, choose, begin, pick_ready}
use grok2api.Scheduler.Choice.{Serves, Fits, Good, Covers}
use grok2api.Scheduler.Choice.Whole.{scan-Good, scan-Covers_all, scan-Serves}
use grok2api.Scheduler.Choice.Balance.{
  AtMost, balance-AtMost-mem, Has, Balanced, balance-Balanced, choose-All,
}

-- `a` is at least as good a choice as `b`: a higher priority, or the same with no more leases out.
abbrev pub Outranks : Account → Account → Type 0
Outranks a b = (b.priority < a.priority) ⊎ ((b.priority ≡ a.priority) × (a.active ≤ b.active))

-- Choosing moves the cursor and nothing else.
choose_by-Serves :
    (how : Strategy) (s : Scheduler) (id : Text) (ids : List Text) (j : Text) (a : Account)
    → Serves s j a
    → Serves (choose_by how s id ids).0 j a
unfolding choose_by eligible
choose_by-Serves fill_first s id ids j a v = v
choose_by-Serves round_robin s id ids j a v = v

choose-Serves :
    (s : Scheduler) (ids : List Text) (j : Text) (a : Account)
    → Serves s j a
    → Serves (choose s ids).0 j a
unfolding choose
choose-Serves s [] j a v = v
choose-Serves s (id ∷ ids) j a v = choose_by-Serves s.strategy s id ids j a v

begin-Good : (s : Scheduler) → Good (begin s)
begin-Good s = record { fit = tt; some_one = λ e. cc; no_one = λ e. refl }

-- The account of a candidate can serve, at the priority `h`.
abbrev Ranked : Scheduler → ℕ → Text → Account → Type 0
Ranked s h id a = (available a ≡ true) × (eligible s id ≡ true) × (a.priority ≡ h)

Fits-Has :
    (s : Scheduler) (h : ℕ) (ids : List Text) → All (Fits s h) ids → All (Has (Ranked s h) s) ids
Fits-Has s h [] f = tt
Fits-Has s h (id ∷ ids) ((a, v, p), f) = ((a, v.0, (v.1, v.2, p)), Fits-Has s h ids f)

module _ (now : Time) (s : Scheduler) where
  abbrev found : Scan
  found = scan now s.ready (begin s)

  abbrev loads : Option ℕ × List Text
  loads = balance found.sched found.candidates (none, [])

  found-Good : Good found
  found-Good = scan-Good now s.ready (begin s) (begin-Good s)

  loads-Balanced : Balanced (Ranked found.sched found.highest) found.sched loads
  loads-Balanced =
      balance-Balanced (Ranked found.sched found.highest) found.sched found.candidates (none, [])
        (Fits-Has found.sched found.highest found.candidates found-Good.fit) refl

  -- What the choice from the outcome `r` of the second loop is.
  abbrev Chosen : Option ℕ × List Text → Option Text → Type 0
  Chosen (none, ids) o = o ≡ none
  Chosen (some l, ids) o =
      (id : Text) × (a : Account) × (o ≡ some id)
      × Serves (choose found.sched ids).0 id a
      × (a.priority ≡ found.highest)
      × (a.active ≡ l)

  choose-Chosen :
      (r : Option ℕ × List Text)
      → Balanced (Ranked found.sched found.highest) found.sched r
      → Chosen r (choose found.sched r.1).1
  unfolding choose
  choose-Chosen (none, ids) b = rw b
  choose-Chosen (some l, ids) b =
      let (id, e, (a, look, (free, hot, level), load)) =
        choose-All _ found.sched ids b.inhabited b.loaded in
      (id, a, e, choose-Serves found.sched ids id a (look, free, hot), level, load)

  -- With a candidate there is a load.
  loads_some : found.has_candidate ≡ true → (n : ℕ) × AtMost loads n
  loads_some h = of_list found.candidates found-Good.fit (found-Good.some_one h)
    where
      of_list :
          (cs : List Text)
          → All (Fits found.sched found.highest) cs
          → cs ≢ []
          → (n : ℕ) × AtMost (balance found.sched cs (none, [])) n
      of_list [] f e = absurd (e refl)
      of_list (c ∷ cs) ((a, v, p), f) e =
          (a.active, balance-AtMost-mem found.sched (c ∷ cs) (none, []) c a (mem-head c cs) v.0)

  -- What an account that can serve at the start says of the outcome `r` of the second loop.
  abbrev Bounds : Option ℕ × List Text → Type 0
  Bounds r =
      (j : Text) (b : Account)
      → mem j s.ready ≡ true
      → Serves s j b
      → Covers found j b × ((n : ℕ) × AtMost r n) × (b.priority ≡ found.highest → AtMost r b.active)

  loads-Bounds : Bounds loads
  loads-Bounds j b h v =
      let c = scan-Covers_all now s.ready (begin s) j b h v in
      let w = scan-Serves now s.ready (begin s) j b v in
      (
        c,
        loads_some c.found,
        λ p. balance-AtMost-mem found.sched found.candidates (none, []) j b (c.listed p) w.0,
      )

  -- `o` is the best answer: `none` when no account can serve, else one that can and that none of
  -- those outranks; `t` is the state that it leaves.
  pub record IsBest (t : Scheduler) (o : Option Text) : Type 0 where
    pub idle : o ≡ none → (j : Text) (b : Account) → mem j s.ready ≡ true → ¬ Serves s j b
    pub best :
        (id : Text)
        → o ≡ some id
        → (a : Account) × Serves t id a
          × ((j : Text) (b : Account) → mem j s.ready ≡ true → Serves s j b → Outranks a b)

  Chosen-IsBest :
      (r : Option ℕ × List Text) (o : Option Text)
      → Chosen r o
      → Bounds r
      → IsBest (choose found.sched r.1).0 o
  Chosen-IsBest (none, ids) o e bounds = record {
    idle = λ _ j b h v. (bounds j b h v).1.1;
    best = λ id f. cc;
  }
  Chosen-IsBest (some l, ids) o (id, a, e, v, level, load) bounds = record {
    idle = λ f. cc;
    best = λ k f.
        subst
          (λ k.
            (a : Account) × Serves (choose found.sched ids).0 k a
            × ((j : Text) (b : Account) → mem j s.ready ≡ true → Serves s j b → Outranks a b))
          (some_injective (sym e ∙ f)) (a, v, outranked);
  }
    where
      outranked : (j : Text) (b : Account) → mem j s.ready ≡ true → Serves s j b → Outranks a b
      outranked j b h w = let (c, _, low) = bounds j b h w in ground (arith, c.below, low)

  -- `pickReadyLocked` answers `none` only when no ready account can serve: when each is at its
  -- limit, out of quota, or kept out by the hot set. An account that it answers can serve in the
  -- state that it leaves, and every ready account that could serve at the start has a lower
  -- priority, or the same priority with at least as many leases out.
  pub pick_ready-IsBest : IsBest (pick_ready now s).0 (pick_ready now s).1
  unfolding pick_ready
  pick_ready-IsBest = Chosen-IsBest loads _ (choose-Chosen loads loads-Balanced) loads-Bounds
