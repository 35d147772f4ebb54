-- ===== src/Recovery/Isolate.antt =====
-- Accounts that leave service at once: their quota is known to be used up, or their refresh token is
-- dead (`IsolateExhaustedReady`, `IsolateUnrecoverableAuth`).
use grok2api.Prelude.{
  ℕ, ◌+◌, ◌*◌, Bool, true, false, not, ◌&&◌, ◌||◌, Option, none, some, leb, ◌==◌, if◌then◌else◌,
  codes, Time, Duration, hour,
}
use grok2api.Account.{
  Account, disabled, is_ready, is_unavailable, quota_exhausted, park_known_exhausted,
  disable_revoked,
}
use grok2api.Recovery.Base.{World, Env, listed, save, walk, is_unrecoverable_auth_code}
use grok2api.Recovery.Batch.{reason_is}

pub record IsolationResult : Type 0 where
  pub isolated : ℕ
  pub skipped : ℕ
  pub failed : ℕ

abbrev pub max_isolate_per_tick : ℕ
max_isolate_per_tick = 500

abbrev pub no_isolation : IsolationResult
no_isolation = record { isolated = 0; skipped = 0; failed = 0 }

abbrev pub skip_one : World × IsolationResult → World × IsolationResult
skip_one (w, r) = (w, record r { skipped = r.skipped + 1 })

abbrev pub count_saved : IsolationResult → World × Bool → World × IsolationResult
count_saved r (w, true) = (w, record r { isolated = r.isolated + 1 })
count_saved r (w, false) = (w, record r { failed = r.failed + 1 })

-- One round of the loop of `IsolateExhaustedReady`.
unfoldable pub isolate_exhausted_one :
    Env → Time → Duration → Account → World × IsolationResult → World × IsolationResult
isolate_exhausted_one env now retry a (w, r) =
    if not (is_ready a.pool) || not (quota_exhausted a)
    then skip_one (w, r)
    else if leb max_isolate_per_tick r.isolated
    then skip_one (w, r)
    else count_saved r (save env (park_known_exhausted now now retry a).0 w)

-- `IsolateExhaustedReady`; `none` is an error of the listing.
unfoldable pub isolate_exhausted_ready :
    Env → Time → Duration → World → World × Option IsolationResult
unfolding isolate_exhausted_one
isolate_exhausted_ready env now quota_retry w =
    let retry : Duration = if quota_retry == 0 then 24 * hour else quota_retry in
    let (t, r) = walk (isolate_exhausted_one env now retry) (listed w.store) (w, no_isolation) in
    if env.can_list then (t, some r) else (w, none)

-- `isolateRevokedAccount`
unfoldable pub isolate_revoked_account : Time → Account → Account
isolate_revoked_account now a =
    disable_revoked now now
      (if is_unrecoverable_auth_code a.last_error_code then a.last_error_code else codes "") a

-- One round of the loop of `IsolateUnrecoverableAuth`.
unfoldable pub isolate_auth_one :
    Env → Time → Account → World × IsolationResult → World × IsolationResult
isolate_auth_one env now a (w, r) =
    if not (is_unavailable a.pool)
    then skip_one (w, r)
    else if reason_is a.unavailable_reason disabled && is_unrecoverable_auth_code a.last_error_code
    then skip_one (w, r)
    else if not (is_unrecoverable_auth_code a.last_error_code)
    then skip_one (w, r)
    else if leb max_isolate_per_tick r.isolated
    then skip_one (w, r)
    else count_saved r (save env (isolate_revoked_account now a) w)

-- `IsolateUnrecoverableAuth`
unfoldable pub isolate_unrecoverable_auth : Env → Time → World → World × Option IsolationResult
unfolding isolate_auth_one
isolate_unrecoverable_auth env now w =
    let (t, r) = walk (isolate_auth_one env now) (listed w.store) (w, no_isolation) in
    if env.can_list then (t, some r) else (w, none)
