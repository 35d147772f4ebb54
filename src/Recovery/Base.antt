-- ===== src/Recovery/Base.antt =====
-- What the passes of the recovery share: the store beside the scheduler, and what surrounds a pass.
use grok2api.Prelude.{
  Bool, true, false, ◌||◌, List, [], ◌∷◌, ◌++◌, if◌then◌else◌, Text, codes, trim_space, to_lower,
  contains, text_eq, insert, Time, Duration, minute, hour, second, ◌+◌, ◌*◌, ltb, ◌==◌,
}
use grok2api.Account.{
  Account, Reason, no_reason, quota, auth, cooldown, validating, disabled, apply_refresh_failure,
}
use grok2api.Scheduler.State.{Scheduler, Accounts}
use grok2api.Scheduler.Manage.{upsert}

-- `store` has the accounts in the order in which `ListAccounts` lists them; `asked` lists those for
-- which a pass called the refresher or the validator.
pub record World : Type 0 where
  pub sched : Scheduler
  pub store : Accounts
  pub asked : List Account

pub record RefreshError : Type 0 where
  pub permanent : Bool
  pub message : Text

pub data Refreshed : Type 0 where
  refreshed : Account → Refreshed
  refresh_failed : RefreshError → Refreshed

-- What a validator answers; `no_reason` is a credential that is good.
pub record Validation : Type 0 where
  pub reason : Reason
  pub error_code : Text
  pub broken : Bool

-- What surrounds a pass: whether the store lists and takes a write, the refresher, the validator, and
-- what others do to the scheduler while those two answer.
pub record Env : Type 0 where
  pub can_list : Bool
  pub can_save : Account → Bool
  pub refresh : Account → Refreshed
  pub validate : Account → Validation
  pub meanwhile : Scheduler → Scheduler

-- `ListAccounts`; `Active` is not stored.
unfoldable pub listed : Accounts → List Account
listed [] = []
listed ((id, a) ∷ m) = record a { active = 0 } ∷ listed m

-- `saveAccountBestEffort`
unfoldable pub save : Env → Account → World → World × Bool
save env a w =
    if env.can_save a
    then (record w { sched = upsert a w.sched; store = insert a.id a w.store }, true)
    else (w, false)

-- The calls of the refresher and the validator for the accounts of a pass, and what others do to the
-- scheduler until all of them have answered.
unfoldable pub wait : Env → List Account → World → World
wait env chosen w = record w { sched = env.meanwhile w.sched; asked = w.asked ++ chosen }

-- `for … range`, over what the body changes
unfoldable pub walk {ℓ κ} : {A : Type ℓ} {S : Type κ} → (A → S → S) → List A → S → S
walk body [] s = s
walk body (a ∷ items) s = walk body items (body a s)

abbrev pub auth_transient_backoff : Duration
auth_transient_backoff = 5 * minute

abbrev pub auth_validation_backoff : Duration
auth_validation_backoff = 10 * minute

abbrev pub validating_backoff : Duration
validating_backoff = 45 * second

-- `isPermanentRefresh`
unfoldable pub is_permanent_refresh : RefreshError → Bool
is_permanent_refresh e =
    let message = to_lower e.message in
    e.permanent
    || (contains message (codes "invalid_grant")
        || (contains message (codes "revoked")
            || contains message (codes "refresh token has been")))

-- `isUnrecoverableAuthCode`
unfoldable pub is_unrecoverable_auth_code : Text → Bool
is_unrecoverable_auth_code code =
    let name = to_lower (trim_space code) in
    text_eq name (codes "refresh-revoked") || text_eq name (codes "invalid_grant")

-- `applyRefreshFailure`
unfoldable pub fail_refresh : RefreshError → Time → Account → Account
fail_refresh e now a =
    apply_refresh_failure now (is_permanent_refresh e) now auth_transient_backoff a

-- `credentialRetryAt`
unfoldable pub credential_retry_at : Reason → Time → Time
credential_retry_at quota now = now + 24 * hour
credential_retry_at cooldown now = now + 45 * second
credential_retry_at validating now = now + validating_backoff
credential_retry_at auth now = now + auth_transient_backoff
credential_retry_at disabled now = now + 365 * (24 * hour)
credential_retry_at no_reason now = 0

-- `nextQuotaRetry`
unfoldable pub next_quota_retry : Time → Duration → Time
next_quota_retry now quota_retry =
    let own : Duration = if quota_retry == 0 then 24 * hour else quota_retry in
    now + (if ltb own (2 * hour) then own else 2 * hour)
