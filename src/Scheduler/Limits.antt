-- ===== src/Scheduler/Limits.antt =====
-- A lease is handed out only on an account that has room for it.
use grok2api.Prelude.{
  ◌<◌, ◌≡◌, refl, ap, sym, ◌∙◌, subst, Bool, true, false, not, ◌&&◌, Option, none, some, List, [],
  ◌∷◌, arith, ◌==◌, if◌then◌else◌, length, Text, is_empty, text_eq_iff, lookup, lookup-insert, Time,
  Duration,
}
use grok2api.Account.{Account, available, or_one, park_known_exhausted, quota_exhausted, ready}
use grok2api.Scheduler.State.{Scheduler, StickyEntry, remove_ready}
use grok2api.Scheduler.Select.{Scan, consider, visit, scan, begin, pick_ready, park_retry}
use grok2api.Scheduler.Acquire.{
  Lease, new_lease, leased, failed, follow_sticky, try_entry, try_sticky, lease_item, lease_picked,
  lease_or_pick, attempt,
}
use grok2api.Scheduler.Status.{selection_failure}
use grok2api.Scheduler.Choice.{visit_cases}
use grok2api.Scheduler.Choice.Best.{pick_ready-IsBest}
use grok2api.Scheduler.Accounting.{choose-accounts}

-- An account that is available after a round was so, and the same, before it.
visit_back :
    (now : Time) (id j : Text) (st : Scan) (a : Account)
    → available a ≡ true
    → lookup j (visit now id st).sched.accounts ≡ some a
    → lookup j st.sched.accounts ≡ some a
unfolding remove_ready consider
visit_back now id j st a free =
    visit_cases (λ t. lookup j t.sched.accounts ≡ some a → lookup j st.sched.accounts ≡ some a) now
      id st (λ e. e)
      (λ b found busy e. ground (
        arith,
        lookup-insert id j (park_known_exhausted now now (park_retry st.sched) b).0
            st.sched.accounts,
        parked_busy now (park_retry st.sched) b,
        text_eq_iff id j,
      ))
      (λ b v e. e)
  where
    parked_busy :
        (now : Time) (d : Duration) (b : Account)
        → available b ≡ false
        → available (park_known_exhausted now now d b).0 ≡ false
    parked_busy now d b h = unfold park_known_exhausted available in ground arith

scan_back :
    (now : Time) (ids : List Text) (j : Text) (st : Scan) (a : Account)
    → available a ≡ true
    → lookup j (scan now ids st).sched.accounts ≡ some a
    → lookup j st.sched.accounts ≡ some a
unfolding scan
scan_back now [] j st a free e = e
scan_back now (id ∷ ids) j st a free e =
    visit_back now id j st a free (scan_back now ids j (visit now id st) a free e)

pick_ready_back :
    (now : Time) (j : Text) (s : Scheduler) (a : Account)
    → available a ≡ true
    → lookup j (pick_ready now s).0.accounts ≡ some a
    → lookup j s.accounts ≡ some a
unfolding pick_ready
pick_ready_back now j s a free e =
    scan_back now s.ready j (begin s) a free
      (ap (lookup j) (sym (choose-accounts (scan now s.ready (begin s)).sched _)) ∙ e)

-- The account that a lease stands on had room for it in the state `s`.
abbrev pub HasRoom : Scheduler → Lease → Type 0
HasRoom s l =
    (a : Account) × (lookup l.account_id s.accounts ≡ some a)
    × (a.pool ≡ ready)
    × (a.active < or_one a.max_active)
    × (quota_exhausted a ≡ false)
    × (l.released ≡ false)

available-parts :
    (a : Account)
    → available a ≡ true
    → (a.pool ≡ ready) × (a.active < or_one a.max_active) × (quota_exhausted a ≡ false)
unfolding available
available-parts a h = ground arith

abbrev is_free : Option Account → Bool
is_free none = false
is_free (some a) = available a

free-HasRoom :
    (id : Text) (s : Scheduler) (o : Option Account)
    → lookup id s.accounts ≡ o
    → is_free o ≡ true
    → HasRoom s (new_lease id)
free-HasRoom id s none e h = cc
free-HasRoom id s (some a) e h =
    let (pool, room, left) = available-parts a h in (a, e, pool, room, left, refl)

follow_sticky-free :
    (now : Time) (key : Text) (e : StickyEntry) (s : Scheduler) (l : Lease)
    → (follow_sticky now key e s).1 ≡ some l
    → (new_lease e.account_id ≡ l) × (is_free (lookup e.account_id s.accounts) ≡ true)
unfolding follow_sticky
follow_sticky-free now key e s l h = (ground arith, ground arith)

follow_sticky-HasRoom :
    (now : Time) (key : Text) (e : StickyEntry) (s : Scheduler) (l : Lease)
    → (follow_sticky now key e s).1 ≡ some l
    → HasRoom s l
follow_sticky-HasRoom now key e s l h =
    let (same, free) = follow_sticky-free now key e s l h in
    subst (HasRoom s) same (free-HasRoom e.account_id s _ refl free)

try_sticky-HasRoom :
    (now : Time) (key : Text) (s : Scheduler) (l : Lease)
    → (try_sticky now key s).1 ≡ some l
    → HasRoom s l
unfolding try_sticky
try_sticky-HasRoom now key s l h = by_test (s.sticky_on && not (is_empty key)) h
  where
    by_entry : (e : Option StickyEntry) → (try_entry now key s e).1 ≡ some l → HasRoom s l
    by_entry none h = unfold try_entry in cc
    by_entry (some e) h = follow_sticky-HasRoom now key e s l (unfold try_entry in ground arith)

    by_test :
        (b : Bool)
        → (if b then try_entry now key s (lookup key s.sticky) else (s, none)).1 ≡ some l
        → HasRoom s l
    by_test true h = by_entry (lookup key s.sticky) h
    by_test false h = cc

-- The sticky part changes accounts only where it hands out a lease.
try_sticky-accounts :
    (now : Time) (key : Text) (s : Scheduler)
    → (try_sticky now key s).1 ≡ none
    → (try_sticky now key s).0.accounts ≡ s.accounts
unfolding try_sticky try_entry follow_sticky
try_sticky-accounts now key s h = ground arith

picked-HasRoom :
    (now : Time) (key : Text) (s : Scheduler) (l : Lease) (o : Option Text)
    → (pick_ready now s).1 ≡ o
    → (lease_picked now key (pick_ready now s).0 o).1 ≡ leased l
    → HasRoom s l
unfolding lease_picked
picked-HasRoom now key s l none e h = cc
picked-HasRoom now key s l (some id) e h =
    let (a, (found, free, hot), _) = (pick_ready-IsBest now s).best id e in
    subst (HasRoom s) (same a found)
      (free-HasRoom id s (some a) (pick_ready_back now id s a free found) free)
  where
    same : (a : Account) → lookup id (pick_ready now s).0.accounts ≡ some a → new_lease id ≡ l
    same a found = unfold lease_item in ground arith

-- A pass of `AcquireSticky` leases only an account that was in the ready pool when it began, with
-- fewer leases out than its limit (at least 1) and with quota left; the lease is not yet released.
pub attempt-HasRoom :
    (now : Time) (key : Text) (s : Scheduler) (l : Lease)
    → (attempt now key s).1 ≡ leased l
    → HasRoom s l
unfolding attempt
attempt-HasRoom now key s l h = by_test (length s.ready == 0) h
  where
    by_lease :
        (t : Scheduler) (o : Option Lease)
        → (try_sticky now key s).0 ≡ t
        → (try_sticky now key s).1 ≡ o
        → (lease_or_pick now key t o).1 ≡ leased l
        → HasRoom s l
    by_lease t (some k) e f h = try_sticky-HasRoom now key s l (unfold lease_or_pick in cc)
    by_lease t none e f h =
        let (a, found, pool, room, left, fresh) =
          picked-HasRoom now key t l (pick_ready now t).1 refl (unfold lease_or_pick in h) in
        (
          a,
          ap (lookup l.account_id) (sym (try_sticky-accounts now key s f) ∙ ap (λ r. r.accounts) e)
              ∙ found,
          pool,
          room,
          left,
          fresh,
        )

    by_test :
        (b : Bool)
        → (if b
            then (s, failed (selection_failure now s))
            else lease_or_pick now key (try_sticky now key s).0 (try_sticky now key s).1).1
          ≡ leased l
        → HasRoom s l
    by_test true h = cc
    by_test false h = by_lease _ _ refl refl h
