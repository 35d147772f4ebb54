-- ===== src/Admin/Service/Login.antt =====
-- `Login`: an attempt is reserved before the password is checked, and settled or released after it.
use grok2api.Prelude.{
  List, ℕ, ◌+◌, ◌-◌, ◌*◌, Bool, true, false, not, ◌&&◌, Option, none, some, [], ltb, ◌==◌,
  if◌then◌else◌, Text, codes, trim_space, Time, Duration, second, minute, hour, sub_time,
}
use grok2api.Admin.Session.{Session, Opened, opened, rejected, new_session}
use grok2api.Admin.User.{
  AttemptError, AdminUser, LoginAttempt, can_authenticate, normalize_username, validate_attempt,
}
use grok2api.Admin.Store.Tables.{Tables, StoreError, count_users, user_by_name}
use grok2api.Admin.Store.Attempts.{by_name_and_ip, by_ip, oldest_recent_failure}
use grok2api.Admin.Store.Reservations.{
  Reserved, reserved, over_limit, not_reserved, pending_code, reserve_attempt, record_attempt,
  complete_failure, release_reservation,
}
use grok2api.Admin.Store.Sessions.{create_with_reservation}
use grok2api.Admin.Service.Base.{
  Primitives, Draws, Answer, granted, denied, AuthError, LoginOutput, setup_required,
  invalid_credentials, random_failed, rate_limited, store_failed, bad_login, bad_session,
  random_token, access_lifetime, cookie_of,
}

pub record LoginInput : Type 0 where
  pub username : Text
  pub password : Text
  pub source_ip : Text
  pub user_agent : Text
  pub remember : Bool

abbrev pub failure_limit : ℕ
failure_limit = 5

abbrev pub failure_window : Duration
failure_window = 15 * minute

abbrev pub session_lifetime : Duration
session_lifetime = 30 * (24 * hour)

-- The fields of `NewLoginAttempt`
abbrev pub attempt_of : Text → Text → Bool → Text → Time → LoginAttempt
attempt_of username ip succeeded code at = record {
  username = normalize_username username;
  source_ip = trim_space ip;
  succeeded = succeeded;
  failure_code = trim_space code;
  created_at = at;
}

abbrev longer : Duration → Duration → Duration
longer a b = if ltb a b then b else a

-- `loginRetryAfter`, for a failure that is found
abbrev wait_for : Time → Option Time → Duration
wait_for now none = 0
wait_for now (some oldest) =
    let rest = sub_time (oldest + failure_window) now in if ltb rest second then second else rest

-- `Service.loginRetryAfter`
unfoldable pub login_retry_after : Text → Text → Time → Time → Tables → Duration
unfolding oldest_recent_failure
login_retry_after username ip start now t =
    let named = wait_for now (oldest_recent_failure (by_name_and_ip username ip) start t) in
    let both = longer named (wait_for now (oldest_recent_failure (by_ip ip) start t)) in
    if both == 0 then second else both

-- `SetupRequired`
unfoldable pub needs_setup : Tables → Bool
unfolding count_users
needs_setup t = count_users t == 0

-- `recordAttempt`
unfoldable pub record_login :
    (Text → Bool) → Text → Text → Bool → Text → Time → Tables → Tables × Option StoreError
unfolding record_attempt validate_attempt
record_login is_ip username ip succeeded code at t =
    record_attempt is_ip (attempt_of username ip succeeded code at) t

-- The deferred release of an attempt that is not settled.
abbrev pub released : ℕ → Tables → AuthError → Tables × Answer LoginOutput
released id t e = ((release_reservation id t).0, denied e)

-- What is settled stays; what failed is released.
abbrev pub settled :
    ℕ → Tables × Option StoreError → Answer LoginOutput → Tables × Answer LoginOutput
settled id (t, none) answer = (t, answer)
settled id (t, some e) answer = released id t (store_failed e)

-- The access token, the refresh secret, the session and its family, when all of them are drawn.
abbrev pub all_tokens :
    Option (List ℕ)
    → Option (List ℕ)
    → Option (List ℕ)
    → Option (List ℕ)
    → Option (Text × Text × Text × Text)
all_tokens none _ _ _ = none
all_tokens (some a) none _ _ = none
all_tokens (some a) (some r) none _ = none
all_tokens (some a) (some r) (some s) none = none
all_tokens (some a) (some r) (some s) (some f) =
    some (random_token a, random_token r, random_token s, random_token f)

module _ (p : Primitives) where
  -- The session goes in with the success.
  abbrev pub settle_success :
      LoginInput
      → ℕ
      → AdminUser
      → Text
      → Text
      → Session
      → LoginAttempt
      → Tables
      → Option AttemptError
      → Tables × Answer LoginOutput
  settle_success input id u access cookie session success t (some e) = released id t (bad_login e)
  settle_success input id u access cookie session success t none =
      settled id (create_with_reservation p.is_ip id session success t) (
        granted (record {
          admin = u;
          access_token = access;
          refresh_cookie = cookie;
          access_expires_at = session.access_expires_at;
          refresh_expires_at = session.expires_at;
          remember = session.remember;
        }))

  abbrev pub signed_in :
      LoginInput
      → Text
      → Text
      → ℕ
      → AdminUser
      → Text
      → Text
      → Time
      → Tables
      → Opened
      → Tables × Answer LoginOutput
  signed_in input username ip id u access cookie now t (rejected e) = released id t (bad_session e)
  signed_in input username ip id u access cookie now t (opened s) =
      let session = record s {
        source_ip = ip;
        user_agent = input.user_agent;
        remember = input.remember;
      } in
      let success = attempt_of username ip true [] now in
      settle_success input id u access cookie session success t (validate_attempt p.is_ip success).1

  abbrev pub open_session :
      LoginInput
      → Text
      → Text
      → ℕ
      → AdminUser
      → Time
      → Tables
      → Option (Text × Text × Text × Text)
      → Tables × Answer LoginOutput
  open_session input username ip id u now t none = released id t random_failed
  open_session input username ip id u now t (some (access, refresh, sid, family)) =
      signed_in input username ip id u access (cookie_of sid refresh) now t (
        new_session sid family u.id (p.sha256 access) (p.sha256 refresh) (now + access_lifetime)
          (now + session_lifetime) now)

  abbrev pub refuse : ℕ → Tables → Tables × Answer LoginOutput
  refuse id t =
      settled id (complete_failure id (codes "invalid_credentials") t) (denied invalid_credentials)

  abbrev pub check_user :
      LoginInput
      → Text
      → Text
      → ℕ
      → Draws
      → Time
      → Tables
      → Option AdminUser
      → Tables × Answer LoginOutput
  check_user input username ip id draws now t none = refuse id t
  check_user input username ip id draws now t (some u) =
      if can_authenticate p.is_bcrypt u && p.verify u.password input.password
      then open_session input username ip id u now t
          (all_tokens draws.access draws.refresh draws.session draws.family)
      else refuse id t

  -- What follows the reservation.
  unfoldable pub check_password :
      LoginInput → Text → Text → ℕ → Draws → Time → Tables → Tables × Answer LoginOutput
  unfolding complete_failure can_authenticate user_by_name random_token new_session
      create_with_reservation release_reservation validate_attempt
  check_password input username ip id draws now t =
      check_user input username ip id draws now t (user_by_name username t)

  abbrev pub after_reserve :
      LoginInput → Text → Text → Draws → Time → Tables × Reserved → Tables × Answer LoginOutput
  after_reserve input username ip draws now (t, not_reserved e) = (t, denied (store_failed e))
  after_reserve input username ip draws now (t, over_limit) =
      (t, denied (rate_limited (login_retry_after username ip (now - failure_window) now t)))
  after_reserve input username ip draws now (t, reserved id) =
      check_password input username ip id draws now t

  abbrev pub login_valid :
      LoginInput
      → Text
      → Text
      → Draws
      → Time
      → LoginAttempt
      → Tables
      → Option AttemptError
      → Tables × Answer LoginOutput
  login_valid input username ip draws now reservation t (some e) = (t, denied (bad_login e))
  login_valid input username ip draws now reservation t none =
      after_reserve input username ip draws now
        (reserve_attempt p.is_ip reservation (now - failure_window) failure_limit t)

  -- `Login`
  unfoldable pub login : LoginInput → Draws → Time → Tables → Tables × Answer LoginOutput
  unfolding check_password login_retry_after count_users reserve_attempt validate_attempt
  login input draws now t =
      let username = normalize_username input.username in
      let ip = trim_space input.source_ip in
      let reservation = attempt_of username ip false pending_code now in
      if count_users t == 0
      then (t, denied setup_required)
      else if not (p.is_ip ip)
      then (t, denied invalid_credentials)
      else login_valid input username ip draws now reservation t
          (validate_attempt p.is_ip reservation).1
