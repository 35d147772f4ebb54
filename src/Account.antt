-- ===== src/Account.antt =====
-- backend/internal/domain/account/account.go: an account, and every operation that changes it. An
-- operation returns the new account beside its result. `wall` is what `time.Now()` returns.
-- Counters and limits are natural numbers: 0 stands for a limit that is not positive.
pub mod Lifecycle
use grok2api.Prelude.{
  ℕ, ◌+◌, ◌*◌, Bool, true, false, not, ◌&&◌, ◌||◌, Option, none, some, ltb, leb, ◌==◌,
  if◌then◌else◌, Text, codes, text_eq, is_empty, Time, Duration, hour, ℤ, is_neg, pos_part,
}

pub data Pool : Type 0 where
  no_pool ready unavailable : Pool

pub data Reason : Type 0 where
  no_reason quota auth cooldown validating disabled : Reason

abbrev pub is_ready : Pool → Bool
is_ready ready = true
is_ready _ = false

abbrev pub is_unavailable : Pool → Bool
is_unavailable unavailable = true
is_unavailable _ = false

abbrev pub is_cooldown : Reason → Bool
is_cooldown cooldown = true
is_cooldown _ = false

abbrev is_disabled : Reason → Bool
is_disabled disabled = true
is_disabled _ = false

abbrev pub revoked_retry : Duration
revoked_retry = 365 * (24 * hour)

pub record Account : Type 0 where
  pub id : Text
  pub access_token : Text
  pub refresh_token : Text
  pub expires_at : Time
  pub oidc_issuer : Text
  pub oidc_client_id : Text
  pub email : Text
  pub user_id : Text
  pub team_id : Text
  pub pool : Pool
  pub unavailable_reason : Reason
  pub retry_at : Time
  pub last_error_code : Text
  pub last_success_at : Time
  pub quota_actual : ℕ
  pub quota_limit : ℕ
  pub request_count : ℕ
  pub authentication_fails : ℕ
  pub active : ℕ
  pub max_active : ℕ
  pub priority : ℕ
  pub created_at : Time
  pub updated_at : Time

abbrev pub normalize_time : Time → Time → Time
normalize_time wall at = if at == 0 then wall else at

unfoldable pub quota_exhausted : Account → Bool
quota_exhausted a = ltb 0 a.quota_limit && leb a.quota_limit a.quota_actual

abbrev pub or_one : ℕ → ℕ
or_one n = if n == 0 then 1 else n

unfoldable pub available : Account → Bool
unfolding quota_exhausted
available a = is_ready a.pool && (ltb a.active (or_one a.max_active) && not (quota_exhausted a))

unfoldable pub mark_unavailable : Time → Reason → Time → Text → Time → Account → Account
mark_unavailable wall reason retry_at error_code at a = record a {
  pool = unavailable;
  unavailable_reason = reason;
  retry_at = retry_at;
  last_error_code = error_code;
  updated_at = normalize_time wall at;
}

unfoldable pub mark_ready : Time → Time → Account → Account
mark_ready wall at a = record a {
  pool = ready;
  unavailable_reason = no_reason;
  retry_at = 0;
  last_error_code = codes "";
  updated_at = normalize_time wall at;
}

unfoldable pub recover_validated : Time → Time → Account → Account
unfolding mark_ready
recover_validated wall at a = let b = mark_ready wall at a in record b { authentication_fails = 0 }

unfoldable pub recover_quota_window : Time → Time → Account → Account
unfolding mark_ready
recover_quota_window wall at a = let b = mark_ready wall at a in record b { quota_actual = 0 }

-- Returns whether the account was parked.
unfoldable pub park_known_exhausted : Time → Time → Duration → Account → Account × Bool
unfolding quota_exhausted is_empty
park_known_exhausted wall at retry_after a =
    let after : Duration = if retry_after == 0 then 24 * hour else retry_after in
    let now : Time = normalize_time wall at in
    if not (is_ready a.pool) || not (quota_exhausted a) then (a, false) else (
      record a {
        pool = unavailable;
        unavailable_reason = quota;
        last_error_code =
            if is_empty a.last_error_code then codes "local:quota-exhausted" else a.last_error_code;
        retry_at = if a.retry_at == 0 || ltb a.retry_at now then now + after else a.retry_at;
        updated_at = now;
      },
      true,
    )

unfoldable pub recover_cooldown : Time → Time → Account → Account × Bool
unfolding mark_ready
recover_cooldown wall now a =
    if not (is_unavailable a.pool)
      || not (is_cooldown a.unavailable_reason)
      || a.retry_at == 0
      || ltb now a.retry_at
    then (a, false)
    else (mark_ready wall now a, true)

unfoldable pub set_quota : ℕ → ℕ → Account → Account
set_quota actual limit a = record a { quota_actual = actual; quota_limit = limit }

unfoldable pub record_usage : Time → ℕ → ℕ → Time → Account → Account
unfolding set_quota
record_usage wall actual limit at a =
    let now : Time = normalize_time wall at in
    let b = set_quota actual limit a in record b { last_success_at = now; updated_at = now }

unfoldable pub disable_revoked : Time → Time → Text → Account → Account
unfolding mark_unavailable is_empty
disable_revoked wall at code a =
    mark_unavailable wall disabled (normalize_time wall at + revoked_retry)
      (if is_empty code then codes "refresh-revoked" else code) at a

unfoldable pub disable_by_admin : Time → Time → Account → Account
unfolding mark_unavailable
disable_by_admin wall at a =
    mark_unavailable wall disabled (normalize_time wall at + revoked_retry) (codes "admin-disabled")
      at a

unfoldable pub enable_by_admin : Time → Time → Account → Account × Bool
unfolding mark_ready
enable_by_admin wall at a =
    if not (is_unavailable a.pool)
      || not (is_disabled a.unavailable_reason)
      || not (text_eq a.last_error_code (codes "admin-disabled"))
    then (a, false)
    else (mark_ready wall at a, true)

pub data RuntimeError : Type 0 where
  negative_priority max_active_below_one : RuntimeError

-- The stored numbers are the arguments, which the two tests bound from below.
unfoldable pub configure_runtime : Time → ℤ → ℤ → Time → Account → Account × Option RuntimeError
configure_runtime wall priority max_active at a =
    if is_neg priority
    then (a, some negative_priority)
    else if ltb (pos_part max_active) 1
    then (a, some max_active_below_one)
    else (
      record a {
        priority = pos_part priority;
        max_active = pos_part max_active;
        updated_at = normalize_time wall at;
      },
      none,
    )

unfoldable pub apply_refresh_failure : Time → Bool → Time → Duration → Account → Account
unfolding disable_revoked mark_unavailable
apply_refresh_failure wall permanent at backoff a =
    let b = record a { authentication_fails = a.authentication_fails + 1 } in
    if permanent
    then disable_revoked wall at (codes "") b
    else mark_unavailable wall auth (normalize_time wall at + backoff) (codes "refresh-failed") at b

unfoldable pub record_validation_failure : Time → Text → Time → Time → Account → Account × ℕ
record_validation_failure wall error_code retry_at at a = (
  record a {
    authentication_fails = a.authentication_fails + 1;
    last_error_code = error_code;
    retry_at = retry_at;
    updated_at = normalize_time wall at;
  },
  a.authentication_fails + 1,
)
