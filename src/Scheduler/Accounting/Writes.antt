-- ===== src/Scheduler/Accounting/Writes.antt =====
-- What gives leases back, and what leaves them alone.
use grok2api.Prelude.{
  ℕ, ◌-◌, ◌≡◌, refl, some, arith, if◌then◌else◌, Text, text_eq, text_eq_iff, lookup, insert,
  lookup-insert, Time, Option-cases, inl, inr,
}
use grok2api.Account.{Account, Reason, mark_unavailable, record_usage}
use grok2api.Scheduler.State.{Scheduler, Accounts, remove_ready}
use grok2api.Scheduler.Acquire.{Lease}
use grok2api.Scheduler.Lease.{drop_sticky, move_unavailable, report_usage, give_back, release}
use grok2api.Scheduler.Manage.{admit_max_active, active_of, upsert}
use grok2api.Scheduler.Accounting.{load, active_in, one_on}

-- A write to an account that keeps its `Active`.
insert-active :
    (id j : Text) (a b : Account) (m : Accounts)
    → lookup id m ≡ some a
    → b.active ≡ a.active
    → active_in (lookup j (insert id b m)) ≡ active_in (lookup j m)
insert-active id j a b m found same = ground (arith, lookup-insert id j b m, text_eq_iff id j)

give_back-load : (id j : Text) (s : Scheduler) → load j (give_back id s) ≡ load j s - one_on id j
unfolding give_back
give_back-load id j s = elim (Option-cases (lookup id s.accounts)) [
  | inl missing ↦ rw (missing, give_back) (ground (arith, text_eq_iff id j))
  | inr (a, found) ↦
      rw (found, give_back)
        (ground (
          arith,
          lookup-insert id j (record a { active = a.active - 1 }) s.accounts,
          text_eq_iff id j,
        ))
]

-- Releasing a lease takes one off the account that it stands on, the first time; a second release
-- changes nothing.
pub release-load :
    (l : Lease) (j : Text) (s : Scheduler)
    → (load j (release l s).1 ≡ load j s - (if l.released then 0 else one_on l.account_id j))
      × (release (release l s).0 (release l s).1 ≡ release l s)
unfolding release
release-load l j s = (ground (arith, give_back-load l.account_id j s), ground arith)

pub move_unavailable-load :
    (wall : Time) (l : Lease) (why : Reason) (retry_at : Time) (code : Text) (j : Text)
    (s : Scheduler)
    → load j (move_unavailable wall l why retry_at code s) ≡ load j s
unfolding move_unavailable
move_unavailable-load wall l why retry_at code j s =
    elim (Option-cases (lookup l.account_id s.accounts)) [
      | inl missing ↦ rw (missing, move_unavailable) refl
      | inr (a, found) ↦
          rw (found, move_unavailable)
            (unfold drop_sticky remove_ready in
              ground (
                arith,
                insert-active l.account_id j a (mark_unavailable wall why retry_at code wall a)
                    s.accounts found (unfold mark_unavailable in refl),
              ))
    ]

pub report_usage-load :
    (wall : Time) (l : Lease) (actual limit : ℕ) (at : Time) (j : Text) (s : Scheduler)
    → load j (report_usage wall l actual limit at s) ≡ load j s
unfolding report_usage
report_usage-load wall l actual limit at j s =
    elim (Option-cases (lookup l.account_id s.accounts)) [
      | inl missing ↦ rw (missing, report_usage) refl
      | inr (a, found) ↦
          rw (found, report_usage)
            (insert-active l.account_id j a _ s.accounts found (unfold record_usage in refl))
    ]

-- An update keeps the leases that are out on the account; a new account comes with its own count.
pub upsert-load :
    (a : Account) (j : Text) (s : Scheduler)
    → load j (upsert a s)
      ≡ (if text_eq a.id j then active_of a.id s.accounts a.active else load j s)
unfolding upsert remove_ready
upsert-load a j s = ground (
  arith,
  lookup-insert a.id j
      (record a {
        max_active = admit_max_active s.max_active_cap a.max_active;
        active = active_of a.id s.accounts a.active;
      })
      s.accounts,
)
