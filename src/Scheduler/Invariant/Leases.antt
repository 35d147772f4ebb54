-- ===== src/Scheduler/Invariant/Leases.antt =====
-- The methods of a lease keep the scheduler sound.
use grok2api.Prelude.{
  ℕ, ◌≡◌, refl, Bool, true, false, some, ltb, if◌then◌else◌, Text, lookup, Time, Option-cases,
  Bool-cases, inl, inr,
}
use grok2api.Account.{Account, Reason, mark_unavailable, record_usage}
use grok2api.Scheduler.State.{Scheduler, remove_ready, put, bump_revision}
use grok2api.Scheduler.Acquire.{Lease}
use grok2api.Scheduler.Lease.{
  differs, drop_sticky, move_unavailable, report_usage, give_back, release,
}
use grok2api.Scheduler.Invariant.{IsSound, Sound-insert, Sound-insert_parked}

pub move_unavailable-IsSound :
    (wall : Time) (l : Lease) (why : Reason) (retry_at : Time) (code : Text) (s : Scheduler)
    → IsSound s
    → IsSound (move_unavailable wall l why retry_at code s)
unfolding move_unavailable remove_ready
move_unavailable-IsSound wall l why retry_at code s v =
    elim (Option-cases (lookup l.account_id s.accounts)) [
      | inl missing ↦ rw (missing, move_unavailable) v
      | inr (a, found) ↦
          rw (found, move_unavailable) (either (differs why retry_at code a) _ (parked a found))
    ]
  where
    parked :
        (a : Account)
        → lookup l.account_id s.accounts ≡ some a
        → IsSound (
            remove_ready l.account_id
              (put l.account_id (mark_unavailable wall why retry_at code wall a) s))
    parked a found =
        unfold mark_unavailable in
        Sound-insert_parked l.account_id _ (v.keyed l.account_id a found) refl v

    either :
        (b : Bool) (t : Scheduler)
        → IsSound t
        → IsSound
            (if b then bump_revision (drop_sticky l.account_id t) else drop_sticky l.account_id t)
    either true t w = unfold drop_sticky in w
    either false t w = unfold drop_sticky in w

pub report_usage-IsSound :
    (wall : Time) (l : Lease) (actual limit : ℕ) (at : Time) (s : Scheduler)
    → IsSound s
    → IsSound (report_usage wall l actual limit at s)
unfolding report_usage
report_usage-IsSound wall l actual limit at s v =
    elim (Option-cases (lookup l.account_id s.accounts)) [
      | inl missing ↦ rw (missing, report_usage) v
      | inr (a, found) ↦
          rw (found, report_usage)
            (unfold record_usage in Sound-insert l.account_id a _ found refl refl v)
    ]

give_back-IsSound : (id : Text) (s : Scheduler) → IsSound s → IsSound (give_back id s)
unfolding give_back
give_back-IsSound id s v = elim (Option-cases (lookup id s.accounts)) [
  | inl missing ↦ rw (missing, give_back) v
  | inr (a, found) ↦
      rw (found, give_back)
        (elim (Bool-cases (ltb 0 a.active)) [
          | inl out ↦ rw out (Sound-insert id a _ found refl refl v)
          | inr none_out ↦ rw none_out v
        ])
]

pub release-IsSound : (l : Lease) (s : Scheduler) → IsSound s → IsSound (release l s).1
unfolding release
release-IsSound l s v = elim (Bool-cases l.released) [
  | inl done ↦ rw done v
  | inr out ↦ rw out (give_back-IsSound l.account_id s v)
]
