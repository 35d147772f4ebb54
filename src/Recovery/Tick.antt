-- ===== src/Recovery/Tick.antt =====
-- One tick: the passes in their order (`RunRecovery`, `runOnce`).
use grok2api.Prelude.{ℕ, ◌*◌, Time, Duration, minute}
use grok2api.Recovery.Base.{World, Env}
use grok2api.Recovery.Isolate.{isolate_exhausted_ready, isolate_unrecoverable_auth}
use grok2api.Recovery.Quota.{recover_quota, recover_due}
use grok2api.Recovery.Validating.{recover_validating}
use grok2api.Recovery.Credentials.{refresh_expiring, recover_credentials}

abbrev pub proactive_refresh_lead : Duration
proactive_refresh_lead = 90 * minute

-- `runOnce` with a store, a refresher and a validator; the n-th pass is surrounded by `envs n`.
unfoldable pub run_once : (ℕ → Env) → Time → Duration → World → World
run_once envs now quota_retry w =
    let promoted = recover_due (envs 0) now w in
    let dead_out = (isolate_unrecoverable_auth (envs 1) now promoted).0 in
    let spent_out = (isolate_exhausted_ready (envs 2) now quota_retry dead_out).0 in
    let early = (recover_quota (envs 3) now spent_out).0 in
    let tried = (recover_validating (envs 4) now early).0 in
    let fresh = (refresh_expiring (envs 5) now proactive_refresh_lead tried).0 in
    let restored = (recover_credentials (envs 6) now fresh).0 in
    (recover_quota (envs 7) now restored).0
