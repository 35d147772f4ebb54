-- ===== src/Recovery/Quota.antt =====
-- Accounts whose quota window has passed (`RecoverQuota`), and cooldowns that are over (`RecoverDue`).
use grok2api.Prelude.{
  ℕ, ◌+◌, Bool, true, false, not, ◌&&◌, Option, none, some, List, if◌then◌else◌, Time, insert,
}
use grok2api.Account.{Account, quota, is_unavailable, recover_quota_window}
use grok2api.Scheduler.Manage.{promote_due}
use grok2api.Recovery.Base.{World, Env, listed, save, walk}
use grok2api.Recovery.Batch.{reason_is, still_waits, candidates, batch, quota_before}

pub record QuotaResult : Type 0 where
  pub recovered : ℕ
  pub deferred : ℕ
  pub failed : ℕ
  pub skipped : ℕ

abbrev pub max_quota_probes_per_tick : ℕ
max_quota_probes_per_tick = 256

-- Parked for its quota, with no deadline or one that is reached.
unfoldable pub quota_due : Time → Account → Bool
quota_due now a =
    is_unavailable a.pool && (reason_is a.unavailable_reason quota && not (still_waits now a))

abbrev pub count_recovered : QuotaResult → World × Bool → World × QuotaResult
count_recovered r (w, true) = (w, record r { recovered = r.recovered + 1 })
count_recovered r (w, false) = (w, record r { failed = r.failed + 1 })

unfoldable pub recover_quota_one : Env → Time → Account → World × QuotaResult → World × QuotaResult
recover_quota_one env now a (w, r) = count_recovered r (save env (recover_quota_window now now a) w)

-- What `RecoverQuota` does once the accounts are chosen.
unfoldable pub recover_quota_batch : Env → Time → List Account × ℕ → World → World × QuotaResult
unfolding recover_quota_one
recover_quota_batch env now (chosen, skipped) w =
    walk (recover_quota_one env now) chosen
      (w, record { recovered = 0; deferred = 0; failed = 0; skipped = skipped })

-- The accounts that `RecoverQuota` chooses.
unfoldable pub quota_batch : Time → World → List Account × ℕ
quota_batch now w =
    batch max_quota_probes_per_tick quota_before (candidates (quota_due now) (listed w.store))

-- `RecoverQuota`
unfoldable pub recover_quota : Env → Time → World → World × Option QuotaResult
unfolding recover_quota_batch quota_batch
recover_quota env now w =
    let (t, r) = recover_quota_batch env now (quota_batch now w) w in
    if env.can_list then (t, some r) else (w, none)

-- The loop of `RecoverDue`: the scheduler has promoted these already.
unfoldable pub save_promoted : Env → Account → World → World
save_promoted env a w = if env.can_save a then record w { store = insert a.id a w.store } else w

-- `RecoverDue`
unfoldable pub recover_due : Env → Time → World → World
unfolding save_promoted
recover_due env now w =
    let (s, up) = promote_due now w.sched in walk (save_promoted env) up (record w { sched = s })
