-- ===== src/Tests/Recovery.antt =====
-- The theorems on the recovery at concrete inputs.
use grok2api.Prelude.{
  ◌≡◌, ◌⊎◌, ◌≤◌, ◌+◌, refl, true, false, [], ◌∷◌, All, codes, length, lookup, insert, mem, text_eq,
  text_eq_iff, arith, hour, sort_stable, to_lower, trim_space,
}
use grok2api.Account.{Account, no_reason, disabled, quota, unavailable, recover_quota_window}
use grok2api.Scheduler.State.{Accounts, new, enlist, enlist_all}
use grok2api.Recovery.Keeping.{quarantined}
use grok2api.Recovery.Base.{is_unrecoverable_auth_code, World, Env, refreshed, listed, save, walk}
use grok2api.Recovery.Batch.{candidates, batch, reason_is}
use grok2api.Recovery.Quota.{
  QuotaResult, quota_due, quota_batch, recover_quota, recover_quota_batch, recover_quota_one,
  max_quota_probes_per_tick,
}
use grok2api.Recovery.Tick.{run_once}
use grok2api.Recovery.Quarantine.{HoldsOut, KeepsOut, run_once-HoldsOut}
use grok2api.Recovery.Oldest.{ids, IsNoLaterThan, quota_batch-oldest}
use grok2api.Recovery.Window.{recover_quota-counts}
use grok2api.Recovery.Drain.{Keyed, recover_quota-drains}
use grok2api.Tests.Fixtures.{now, low, account}

-- The store takes every write, every refresh brings the account back as it was, and every credential is
-- good; nobody else is about.
abbrev calm : Env
calm = record {
  can_list = true;
  can_save = λ a. true;
  refresh = λ a. refreshed a;
  validate = λ a. record { reason = no_reason; error_code = []; broken = false };
  meanwhile = λ s. s;
}

-- Its quota window is over.
abbrev rested : Account
rested = record low { pool = unavailable; unavailable_reason = quota; retry_at = now }

abbrev kept_out : Account
kept_out = record (account (codes "out") 1 1) {
  pool = unavailable;
  unavailable_reason = disabled;
  retry_at = 0;
}

abbrev stored : Accounts
stored = (codes "low", rested) ∷ (codes "out", kept_out) ∷ []

abbrev world : World
world = record { sched = new (rested ∷ kept_out ∷ []); store = stored; asked = [] }

calm-KeepsOut : KeepsOut (codes "out") calm
calm-KeepsOut = record { waiting = λ s h. h; same_id = λ a b e. cc }

low_apart : codes "low" ≡ codes "out" → quarantined rested ≡ true
unfolding text_eq
low_apart e = let t = (text_eq_iff (codes "low") (codes "out")).1 e in cc

world-HoldsOut : HoldsOut (codes "out") world
unfolding new enlist enlist_all insert text_eq reason_is is_unrecoverable_auth_code to_lower
    trim_space
world-HoldsOut = record {
  stored = ((low_apart, low_apart), ((λ e. refl, λ e. refl), tt));
  scheduled = ((low_apart, low_apart), ((λ e. refl, λ e. refl), tt));
  unasked = tt;
}

run_once-HoldsOut_example : HoldsOut (codes "out") (run_once (λ n. calm) now hour world)
run_once-HoldsOut_example =
    run_once-HoldsOut (codes "out") (λ n. calm) now hour world (λ n. calm-KeepsOut) world-HoldsOut

quota_batch-oldest_example :
    let chosen = (quota_batch now world).0 in
    All
      (λ a.
        quota_due now a ≡ true
        → (mem a.id (ids chosen) ≡ true) ⊎ ((length chosen ≡ 256) × All (IsNoLaterThan a) chosen))
      (listed stored)
quota_batch-oldest_example = quota_batch-oldest now world

abbrev after_pass : QuotaResult
after_pass = record { recovered = 1; deferred = 0; failed = 0; skipped = 1 }

recover_quota-counts_example :
    (1 + 0 + 1 ≡ length stored) × (1 + 0 ≤ max_quota_probes_per_tick) × (after_pass.deferred ≡ 0)
unfolding recover_quota recover_quota_batch recover_quota_one quota_batch batch candidates listed
    quota_due reason_is walk save sort_stable
recover_quota-counts_example = recover_quota-counts calm now world after_pass refl

world-Keyed : Keyed stored
world-Keyed = (refl, (refl, tt))

abbrev back_again : Account
back_again = recover_quota_window now now rested

recover_quota-drains_example : quota_due now back_again ≡ false
unfolding recover_quota recover_quota_batch recover_quota_one quota_batch batch candidates listed
    quota_due reason_is walk save insert lookup text_eq sort_stable recover_quota_window
recover_quota-drains_example =
    recover_quota-drains calm now world refl (λ a. refl) world-Keyed (omega arith) (codes "low")
      back_again refl
