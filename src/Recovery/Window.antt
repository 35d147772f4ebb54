-- ===== src/Recovery/Window.antt =====
-- What the counts of `RecoverQuota` add up to.
use grok2api.Prelude.{
  ℕ, suc, ◌+◌, ◌≤◌, ◌≡◌, refl, subst, ◌∙◌, Bool, true, false, some, List, [], ◌∷◌, length, arith,
  Time,
}
use grok2api.Account.{Account, recover_quota_window}
use grok2api.Scheduler.State.{Accounts}
use grok2api.Recovery.Base.{World, Env, listed, save, walk}
use grok2api.Recovery.Batch.{candidates, batch, quota_before}
use grok2api.Recovery.Walk.{candidates-total, batch-total}
use grok2api.Recovery.Quota.{
  QuotaResult, quota_due, count_recovered, recover_quota_one, recover_quota_batch, recover_quota,
  quota_batch, max_quota_probes_per_tick,
}

abbrev counted : QuotaResult → ℕ
counted r = r.recovered + r.failed + r.skipped + r.deferred

count_recovered-counted :
    (r : QuotaResult) (x : World × Bool) → counted (count_recovered r x).1 ≡ suc (counted r)
count_recovered-counted r (w, true) = omega arith
count_recovered-counted r (w, false) = omega arith

walk-counted :
    (env : Env) (now : Time) (items : List Account) (s : World × QuotaResult)
    → counted (walk (recover_quota_one env now) items s).1 ≡ counted s.1 + length items
unfolding walk recover_quota_one
walk-counted env now [] s = omega arith
walk-counted env now (a ∷ items) (w, r) = omega (
  arith,
  walk-counted env now items (count_recovered r (save env (recover_quota_window now now a) w)),
  count_recovered-counted r (save env (recover_quota_window now now a) w),
)

count_recovered-rest :
    (r : QuotaResult) (x : World × Bool)
    → ((count_recovered r x).1.skipped ≡ r.skipped)
      × ((count_recovered r x).1.deferred ≡ r.deferred)
count_recovered-rest r (w, true) = (refl, refl)
count_recovered-rest r (w, false) = (refl, refl)

walk-rest :
    (env : Env) (now : Time) (items : List Account) (s : World × QuotaResult)
    → let t = walk (recover_quota_one env now) items s in
      (t.1.skipped ≡ s.1.skipped) × (t.1.deferred ≡ s.1.deferred)
unfolding walk recover_quota_one
walk-rest env now [] s = (refl, refl)
walk-rest env now (a ∷ items) (w, r) =
    let x = save env (recover_quota_window now now a) w in
    let h = walk-rest env now items (count_recovered r x) in
    let k = count_recovered-rest r x in (h.0 ∙ k.0, h.1 ∙ k.1)

length-listed : (m : Accounts) → length (listed m) ≡ length m
unfolding listed
length-listed [] = refl
length-listed ((k, a) ∷ m) = omega (arith, length-listed m)

-- Every account that the store lists is counted once by a pass that can list them, as recovered, as
-- failed or as skipped, and no more than the limit of a tick are tried.
pub recover_quota-counts :
    (env : Env) (now : Time) (w : World) (r : QuotaResult)
    → (recover_quota env now w).1 ≡ some r
    → (r.recovered + r.failed + r.skipped ≡ length w.store)
      × (r.recovered + r.failed ≤ max_quota_probes_per_tick)
      × (r.deferred ≡ 0)
unfolding recover_quota recover_quota_batch quota_batch
recover_quota-counts env now w r e =
    let due = candidates (quota_due now) (listed w.store) in
    let b = batch max_quota_probes_per_tick quota_before due in
    let start : QuotaResult = record { recovered = 0; deferred = 0; failed = 0; skipped = b.1 } in
    let done = (walk (recover_quota_one env now) b.0 (w, start)).1 in
    let same : done ≡ r = ground arith in
    let total = walk-counted env now b.0 (w, start) in
    let rest = walk-rest env now b.0 (w, start) in
    let found = candidates-total (quota_due now) (listed w.store) in
    let kept = batch-total max_quota_probes_per_tick quota_before due in
    subst
      (λ (t : QuotaResult).
        (t.recovered + t.failed + t.skipped ≡ length w.store)
        × (t.recovered + t.failed ≤ max_quota_probes_per_tick)
        × (t.deferred ≡ 0))
      same
      (
        omega (arith, total, rest, found, kept, length-listed w.store),
        omega (arith, total, rest, kept),
        rest.1,
      )
