-- ===== src/Scheduler/Choice/Whole.antt =====
-- The whole first loop of `pickReadyLocked`.
use grok2api.Prelude.{
  ◌≡◌, sym, subst, true, false, List, [], ◌∷◌, arith, Text, text_eq, text_eq→eq, mem, Time,
  Bool-cases, inl, inr,
}
use grok2api.Account.{Account, available, park_known_exhausted}
use grok2api.Scheduler.State.{remove_ready}
use grok2api.Scheduler.Select.{Scan, consider, visit_item, visit, scan, park_retry}
use grok2api.Scheduler.Invariant.Pick.{park-unready}
use grok2api.Scheduler.Choice.{
  Serves, Good, Covers, visit_cases, park-Serves, All-map, consider-Covers, consider-Covers_self,
  consider-Good,
}

visit-Serves :
    (now : Time) (id j : Text) (c : Account) (st : Scan)
    → Serves st.sched j c
    → Serves (visit now id st).sched j c
unfolding remove_ready consider
visit-Serves now id j c st v =
    visit_cases (λ t. Serves t.sched j c) now id st v
      (λ a found busy. park-Serves st.sched id a _ _ j c found busy v) (λ a _. v)

visit-Good : (now : Time) (id : Text) (st : Scan) → Good st → Good (visit now id st)
unfolding remove_ready
visit-Good now id st g =
    visit_cases Good now id st g
      (λ a found busy. record {
        fit =
            All-map (λ c f. (f.0, park-Serves st.sched id a _ _ c f.0 found busy f.1, f.2))
              st.candidates g.fit;
        some_one = g.some_one;
        no_one = g.no_one;
      })
      (λ a v. consider-Good id a st v g)

visit-Covers :
    (now : Time) (id j : Text) (b : Account) (st : Scan)
    → Covers st j b
    → Covers (visit now id st) j b
visit-Covers now id j b st c =
    visit_cases (λ t. Covers t j b) now id st c
      (λ a _ _. record { found = c.found; below = c.below; listed = c.listed })
      (λ a _. consider-Covers id a st j b c)

served_stays :
    (now : Time) (a : Account) (st : Scan)
    → available a ≡ true
    → (park_known_exhausted now now (park_retry st.sched) a).1 ≡ false
served_stays now a st free =
    elim (Bool-cases (park_known_exhausted now now (park_retry st.sched) a).1) [
      | inl parks ↦ cc (park-unready now (park_retry st.sched) a parks).3
      | inr stays ↦ stays
    ]

visit-Covers_self :
    (now : Time) (id : Text) (a : Account) (st : Scan)
    → Serves st.sched id a
    → Covers (visit now id st) id a
unfolding visit visit_item
visit-Covers_self now id a st v =
    rw (v.0, visit) (rw (served_stays now a st v.1, v.1, v.2) (consider-Covers_self id a st))

pub scan-Good : (now : Time) (ids : List Text) (st : Scan) → Good st → Good (scan now ids st)
unfolding scan
scan-Good now [] st g = g
scan-Good now (id ∷ ids) st g = scan-Good now ids _ (visit-Good now id st g)

scan-Covers :
    (now : Time) (ids : List Text) (st : Scan) (j : Text) (b : Account)
    → Covers st j b
    → Covers (scan now ids st) j b
unfolding scan
scan-Covers now [] st j b c = c
scan-Covers now (id ∷ ids) st j b c = scan-Covers now ids _ j b (visit-Covers now id j b st c)

-- Every listed account that can serve is covered at the end.
pub scan-Covers_all :
    (now : Time) (ids : List Text) (st : Scan) (j : Text) (b : Account)
    → mem j ids ≡ true
    → Serves st.sched j b
    → Covers (scan now ids st) j b
unfolding scan mem
scan-Covers_all now [] st j b h v = cc
scan-Covers_all now (id ∷ ids) st j b h v = elim (Bool-cases (text_eq id j)) [
  | inl here ↦ scan-Covers now ids _ j b (
      subst (λ k. Covers (visit now k st) j b) (sym (text_eq→eq id j here))
        (visit-Covers_self now j b st v))
  | inr later ↦ scan-Covers_all now ids _ j b (ground arith) (visit-Serves now id j b st v)
]

-- The state in which the loop ends still has every account that can serve.
pub scan-Serves :
    (now : Time) (ids : List Text) (st : Scan) (j : Text) (b : Account)
    → Serves st.sched j b
    → Serves (scan now ids st).sched j b
unfolding scan
scan-Serves now [] st j b v = v
scan-Serves now (id ∷ ids) st j b v = scan-Serves now ids _ j b (visit-Serves now id j b st v)
