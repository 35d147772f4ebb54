-- ===== src/Scheduler/Accounting.antt =====
-- How many leases are out: what each operation does to the `Active` of every account.
pub mod Writes
use grok2api.Prelude.{
  ℕ, ◌+◌, ◌-◌, ◌≤◌, ◌<◌, ◌≡◌, refl, ap, sym, ◌∙◌, Bool, true, false, not, ◌&&◌, ◌||◌, Option, none,
  some, List, [], ◌∷◌, arith, ltb, leb, ◌==◌, if◌then◌else◌, length, Text, is_empty, text_eq,
  text_eq_iff, lookup, insert, erase, lookup-insert, lookup-erase, mem, Time, Duration,
  Option-cases, Bool-cases, inl, inr,
}
use grok2api.Account.{
  Account, Reason, available, is_ready, or_one, park_known_exhausted, mark_unavailable,
  record_usage,
}
use grok2api.Scheduler.State.{
  Scheduler, Accounts, StickyEntry, Strategy, fill_first, round_robin, put, remove_ready,
  bump_revision,
}
use grok2api.Scheduler.Hot.{eligible, ensure_hot}
use grok2api.Scheduler.Select.{
  Scan, consider, visit, scan, choose_by, choose, balance, begin, pick_ready, park_retry,
}
use grok2api.Scheduler.Acquire.{
  Lease, Outcome, leased, failed, waits, bump_sticky, grant, new_lease, follow_sticky, try_entry,
  try_sticky, lease_item, lease_picked, lease_or_pick, attempt,
}
use grok2api.Scheduler.Lease.{drop_sticky, move_unavailable, report_usage, give_back, release}
use grok2api.Scheduler.Manage.{admit_max_active, active_of, upsert, promote_due}
use grok2api.Scheduler.Choice.{Serves, visit_cases}
use grok2api.Scheduler.Choice.Best.{IsBest, pick_ready-IsBest}

abbrev pub active_in : Option Account → ℕ
active_in none = 0
active_in (some a) = a.active

-- The leases that are out on an account.
abbrev pub load : Text → Scheduler → ℕ
load id s = active_in (lookup id s.accounts)

park-active :
    (now : Time) (d : Duration) (a : Account)
    → (park_known_exhausted now now d a).0.active ≡ a.active
unfolding park_known_exhausted
park-active now d a = ground arith

visit-load :
    (now : Time) (id j : Text) (st : Scan) → load j (visit now id st).sched ≡ load j st.sched
unfolding remove_ready consider
visit-load now id j st =
    visit_cases (λ t. load j t.sched ≡ load j st.sched) now id st refl
      (λ a found _. ground (
        arith,
        lookup-insert id j (park_known_exhausted now now (park_retry st.sched) a).0
            st.sched.accounts,
        park-active now (park_retry st.sched) a,
        text_eq_iff id j,
      ))
      (λ a _. refl)

scan-load :
    (now : Time) (ids : List Text) (j : Text) (st : Scan)
    → load j (scan now ids st).sched ≡ load j st.sched
unfolding scan
scan-load now [] j st = refl
scan-load now (id ∷ ids) j st = scan-load now ids j _ ∙ visit-load now id j st

choose_by-accounts :
    (how : Strategy) (s : Scheduler) (id : Text) (ids : List Text)
    → (choose_by how s id ids).0.accounts ≡ s.accounts
unfolding choose_by
choose_by-accounts fill_first s id ids = refl
choose_by-accounts round_robin s id ids = refl

pub choose-accounts : (s : Scheduler) (ids : List Text) → (choose s ids).0.accounts ≡ s.accounts
unfolding choose
choose-accounts s [] = refl
choose-accounts s (id ∷ ids) = choose_by-accounts s.strategy s id ids

-- Choosing gives out nothing yet.
pick_ready-load : (now : Time) (j : Text) (s : Scheduler) → load j (pick_ready now s).0 ≡ load j s
unfolding pick_ready
pick_ready-load now j s =
    ap (λ m. active_in (lookup j m)) (choose-accounts _ _) ∙ scan-load now s.ready j (begin s)

ensure_hot-accounts : (id : Text) (s : Scheduler) → (ensure_hot id s).accounts ≡ s.accounts
unfolding ensure_hot
ensure_hot-accounts id s = ground arith

-- One more lease on `id`.
abbrev pub one_on : Text → Text → ℕ
one_on id j = if text_eq id j then 1 else 0

grant-load :
    (id j : Text) (a : Account) (s : Scheduler)
    → lookup id s.accounts ≡ some a
    → load j (grant id a s) ≡ load j s + one_on id j
unfolding grant
grant-load id j a s found = ground (
  arith,
  ensure_hot-accounts id
      (put id (record a { active = a.active + 1; request_count = a.request_count + 1 }) s),
  lookup-insert id j (record a { active = a.active + 1; request_count = a.request_count + 1 })
      s.accounts,
  text_eq_iff id j,
)

abbrev lease_on : Option Lease → Text → ℕ
lease_on none j = 0
lease_on (some l) j = one_on l.account_id j

-- The leases that a pass hands out.
abbrev pub granted_on : Outcome → Text → ℕ
granted_on (leased l) j = one_on l.account_id j
granted_on (failed e) j = 0
granted_on (waits e) j = 0

bump_sticky-load :
    (key id : Text) (now : Time) (j : Text) (s : Scheduler)
    → load j (bump_sticky key id now s) ≡ load j s
unfolding bump_sticky
bump_sticky-load key id now j s = refl

follow_sticky-load :
    (now : Time) (key j : Text) (e : StickyEntry) (s : Scheduler)
    → load j (follow_sticky now key e s).0 ≡ load j s + lease_on (follow_sticky now key e s).1 j
unfolding follow_sticky
follow_sticky-load now key j e s = elim (Option-cases (lookup e.account_id s.accounts)) [
  | inl missing ↦ rw (missing, follow_sticky) (omega arith)
  | inr (a, found) ↦
      rw (found, follow_sticky)
        (ground (
          arith,
          grant-load e.account_id j a s found,
          bump_sticky-load key e.account_id now j (grant e.account_id a s),
        ))
]

try_sticky-load :
    (now : Time) (key j : Text) (s : Scheduler)
    → load j (try_sticky now key s).0 ≡ load j s + lease_on (try_sticky now key s).1 j
unfolding try_sticky
try_sticky-load now key j s = elim (Bool-cases (s.sticky_on && not (is_empty key))) [
  | inl on ↦ rw on (by_entry (lookup key s.sticky))
  | inr off ↦ rw off (omega arith)
]
  where
    by_entry :
        (e : Option StickyEntry)
        → load j (try_entry now key s e).0 ≡ load j s + lease_on (try_entry now key s e).1 j
    by_entry none = unfold try_entry in omega arith
    by_entry (some e) = unfold try_entry in ground (arith, follow_sticky-load now key j e s)

lease_picked-load :
    (now : Time) (key j : Text) (t : Scheduler) (o : Option Text)
    → load j (lease_picked now key t o).0 ≡ load j t + granted_on (lease_picked now key t o).1 j
unfolding lease_picked
lease_picked-load now key j t none = omega arith
lease_picked-load now key j t (some id) = elim (Option-cases (lookup id t.accounts)) [
  | inl missing ↦ rw (missing, lease_item) (omega arith)
  | inr (a, found) ↦
      rw (found, lease_item)
        (ground (arith, grant-load id j a t found, bump_sticky-load key id now j (grant id a t)))
]

-- A pass of `AcquireSticky` raises `Active` by one on the account that it leases, and changes it on
-- no other; a pass that fails or has to wait changes none.
pub attempt-load :
    (now : Time) (key j : Text) (s : Scheduler)
    → load j (attempt now key s).0 ≡ load j s + granted_on (attempt now key s).1 j
unfolding attempt
attempt-load now key j s = elim (Bool-cases (length s.ready == 0)) [
  | inl nothing ↦ rw nothing (omega arith)
  | inr something ↦
      rw something
        (by_lease (try_sticky now key s).0 (try_sticky now key s).1 (try_sticky-load now key j s))
]
  where
    by_lease :
        (t : Scheduler) (l : Option Lease)
        → load j t ≡ load j s + lease_on l j
        → load j (lease_or_pick now key t l).0
          ≡ load j s + granted_on (lease_or_pick now key t l).1 j
    by_lease t (some l) e = unfold lease_or_pick in e
    by_lease t none e =
        unfold lease_or_pick in
        omega (
          arith,
          e,
          pick_ready-load now j t,
          lease_picked-load now key j (pick_ready now t).0 (pick_ready now t).1,
        )
