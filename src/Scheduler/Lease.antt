-- ===== src/Scheduler/Lease.antt =====
-- The methods of `Lease` (scheduler.go).
use grok2api.Prelude.{
  ℕ, ◌-◌, Bool, true, not, ◌||◌, Option, none, some, ltb, ◌==◌, if◌then◌else◌, Text, text_eq,
  lookup, keep, Time,
}
use grok2api.Account.{Account, Reason, is_unavailable, mark_unavailable, record_usage}
use grok2api.Scheduler.State.{Scheduler, put, remove_ready, bump_revision, signal}
use grok2api.Scheduler.Status.{reason_eq}
use grok2api.Scheduler.Acquire.{Lease}

-- `Account`; `none` is the zero account that the source returns.
unfoldable pub account_of : Lease → Scheduler → Option Account
account_of l s = lookup l.account_id s.accounts

-- Drops the sessions that are stuck to the account.
unfoldable pub drop_sticky : Text → Scheduler → Scheduler
drop_sticky id s = record s { sticky = keep (λ k e. not (text_eq e.account_id id)) s.sticky }

unfoldable pub differs : Reason → Time → Text → Account → Bool
differs reason retry_at code a =
    not (is_unavailable a.pool)
    || not (reason_eq a.unavailable_reason reason)
    || not (a.retry_at == retry_at)
    || not (text_eq a.last_error_code code)

-- `MoveUnavailable`
unfoldable pub move_unavailable : Time → Lease → Reason → Time → Text → Scheduler → Scheduler
unfolding drop_sticky differs
move_unavailable wall l reason retry_at code s = elim (lookup l.account_id s.accounts) [
  | none ↦ s
  | some item ↦
      let parked = mark_unavailable wall reason retry_at code wall item in
      let t = drop_sticky l.account_id (remove_ready l.account_id (put l.account_id parked s)) in
      if differs reason retry_at code item then bump_revision t else t
]

-- `RecordUsage`
unfoldable pub report_usage : Time → Lease → ℕ → ℕ → Time → Scheduler → Scheduler
report_usage wall l actual limit at s = elim (lookup l.account_id s.accounts) [
  | none ↦ s
  | some item ↦ put l.account_id (record_usage wall actual limit at item) s
]

unfoldable pub give_back : Text → Scheduler → Scheduler
give_back id s = elim (lookup id s.accounts) [
  | none ↦ s
  | some item ↦ if ltb 0 item.active then put id (record item { active = item.active - 1 }) s else s
]

-- `Release`
unfoldable pub release : Lease → Scheduler → Lease × Scheduler
unfolding give_back signal
release l s =
    if l.released then (l, s) else (record l { released = true }, signal (give_back l.account_id s))
