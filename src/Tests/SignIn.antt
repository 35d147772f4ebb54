-- ===== src/Tests/SignIn.antt =====
-- The theorems on the sign-in of administrators at concrete inputs.
use grok2api.Prelude.{
  ◌==◌, ℕ, ◌+◌, ◌*◌, ◌-◌, ◌≡◌, ◌≢◌, ◌≤◌, refl, true, false, not, some, none, List, [], ◌∷◌, ◌++◌,
  codes, take, text_eq, trim_space, to_lower, is_empty, arith, hour, second, minute, Text,
}
use grok2api.Client.Key.{is_zero_hash}
use grok2api.Admin.Session.{Session}
use grok2api.Admin.User.{
  AdminUser, LoginAttempt, normalize_username, validate_password, administrator,
}
use grok2api.Admin.Store.Times.{stored_lt}
use grok2api.Admin.Store.Tables.{user_by_id, user_by_name, Tables, find, count, delete_where}
use grok2api.Admin.Store.Attempts.{
  by_name_and_ip, by_ip, used_attempts, recent_failures, last_success,
}
use grok2api.Admin.Store.Reservations.{
  complete_failure, drop_reservation, insert_attempt, prune_attempts, pending_code,
}
use grok2api.Admin.Store.Sessions.{get_session, insert_session}
use grok2api.Admin.Service.Base.{
  Primitives, Draws, Answer, granted, denied, LoginOutput, invalid_refresh, split_cookie,
  authenticate_access,
}
use grok2api.Admin.Service.Login.{LoginInput, login, check_password, attempt_of, failure_window}
use grok2api.Admin.Service.Refresh.{refresh}
use grok2api.Admin.Limit.{
  reserves, fails, releases, apply_logins, apply_logins-limited, complete_failure-used,
}
use grok2api.Admin.Replay.{refresh-closes_family}
use grok2api.Admin.Once.{refresh-once}
use grok2api.Admin.Entry.{login-lets_in}
use grok2api.Tests.Fixtures.{now}

abbrev ones : List ℕ
ones =
    1 ∷ 1 ∷ 1 ∷ 1 ∷ 1 ∷ 1 ∷ 1 ∷ 1 ∷ 1 ∷ 1 ∷ 1 ∷ 1 ∷ 1 ∷ 1 ∷ 1 ∷ 1 ∷ 1 ∷ 1 ∷ 1 ∷ 1 ∷ 1 ∷ 1 ∷ 1 ∷ 1
    ∷ 1 ∷ 1 ∷ 1 ∷ 1 ∷ 1 ∷ 1 ∷ 1 ∷ 1 ∷ []

-- Every text that is not empty is an address; a hash is the text filled up to 32 bytes.
abbrev toy : Primitives
toy = record {
  is_ip = λ a. not (is_empty a);
  is_bcrypt = λ h. true;
  sha256 = λ x. take 32 (x ++ ones);
  verify = λ c password. text_eq c.hash password;
}

abbrev root : AdminUser
root = record {
  id = codes "u1";
  username = codes "root";
  password = record { scheme = codes "bcrypt_sha256_v1"; hash = codes "secret" };
  role = administrator;
  enabled = true;
  last_login_at = 0;
  created_at = hour;
  updated_at = hour;
}

abbrev at_first : Tables
at_first = record {
  users = root ∷ [];
  sessions = [];
  attempts = [];
  reservations = [];
  attempts_made = 0;
  reservations_made = 0;
}

abbrev first_draws : Draws
first_draws = record {
  access = some (1 ∷ []);
  refresh = some (2 ∷ []);
  session = some (3 ∷ []);
  family = some (4 ∷ []);
}

abbrev next_draws : Draws
next_draws = record {
  access = some (5 ∷ []);
  refresh = some (6 ∷ []);
  session = some (7 ∷ []);
  family = none;
}

abbrev home : Text
home = codes "::1"

abbrev first_login : Tables × Answer LoginOutput
first_login =
    login toy
      (record {
        username = codes "root";
        password = codes "secret";
        source_ip = home;
        user_agent = codes "browser";
        remember = false;
      })
      first_draws now at_first

abbrev after_login : Tables
after_login = first_login.0

abbrev first_refresh : Tables × Answer LoginOutput
first_refresh =
    refresh toy (5 * second) (codes "03.02") home (codes "browser") next_draws (now + minute)
      after_login

abbrev replaced : Tables
replaced = first_refresh.0

abbrev pending : LoginAttempt
pending = attempt_of (codes "root") home false pending_code now

apply_logins-limited_example :
    let ops =
      reserves pending (now - failure_window) 5
      ∷ fails 1 (codes "invalid_credentials")
      ∷ reserves pending (now - failure_window) 5
      ∷ releases 2
      ∷ [] in
    let t = apply_logins toy.is_ip ops at_first in
    (used_attempts (by_name_and_ip (codes "root") home) (now - failure_window) t ≤ 5)
    × (used_attempts (by_ip home) (now - failure_window) t ≤ 5)
unfolding stored_lt used_attempts recent_failures last_success count
apply_logins-limited_example =
    apply_logins-limited toy.is_ip (codes "root") home (now - failure_window) 5
      (reserves pending (now - failure_window) 5
        ∷ fails 1 (codes "invalid_credentials")
        ∷ reserves pending (now - failure_window) 5
        ∷ releases 2
        ∷ [])
      at_first ((refl, omega arith), (tt, ((refl, omega arith), (tt, tt)))) (omega arith)
      (omega arith)

abbrev waiting : Tables
waiting = record at_first {
  reservations =
      record { row = 1; username = codes "root"; source_ip = home; created_at = now } ∷ [];
  reservations_made = 1;
}

complete_failure-used_example :
    let u = (complete_failure 1 (codes "invalid_credentials") waiting).0 in
    (used_attempts (by_ip home) (now - failure_window) u
      ≡ used_attempts (by_ip home) (now - failure_window) waiting)
    × (count (λ r. r.row == 1) u.reservations ≡ 0)
unfolding complete_failure find drop_reservation delete_where count trim_space is_empty text_eq
complete_failure-used_example =
    complete_failure-used (by_ip home) (now - failure_window) 1 (codes "invalid_credentials")
      waiting (complete_failure 1 (codes "invalid_credentials") waiting).0 refl tt refl

abbrev first_session : Session
first_session = record {
  id = codes "03";
  family_id = codes "04";
  admin_user_id = codes "u1";
  access_token_hash = toy.sha256 (codes "01");
  refresh_secret_hash = toy.sha256 (codes "02");
  source_ip = home;
  user_agent = codes "browser";
  remember = false;
  created_at = now;
  access_expires_at = now + 5 * minute;
  expires_at = now + 720 * hour;
  last_seen_at = now;
  revoked_at = 0;
  rotated_at = 0;
  replaced_by_session_id = [];
  revocation_reason = [];
}

-- The first session, once it is replaced.
abbrev spent_session : Session
spent_session = record first_session {
  last_seen_at = now + minute;
  revoked_at = now + minute;
  rotated_at = now + minute;
  replaced_by_session_id = codes "07";
  revocation_reason = codes "rotated";
}

refresh-closes_family_example :
    ((refresh toy (5 * second) (codes "03.02") home [] first_draws (now + hour) replaced).1
      ≡ denied invalid_refresh)
    × (authenticate_access toy
          (codes "05")
          (now + hour)
          (refresh toy (5 * second) (codes "03.02") home [] first_draws (now + hour) replaced).0
        ≢ granted (root, first_session))
unfolding login check_password split_cookie get_session refresh is_empty trim_space
    normalize_username to_lower text_eq validate_password is_zero_hash prune_attempts insert_attempt
    stored_lt
refresh-closes_family_example =
    refresh-closes_family toy (5 * second) (codes "03.02") home [] (codes "03") (codes "02")
      first_draws (now + hour) (now + hour) replaced spent_session first_session (codes "05") root
      (omega arith) refl refl refl refl refl refl refl refl

abbrev second_grant : LoginOutput
second_grant = record {
  admin = root;
  access_token = codes "05";
  refresh_cookie = codes "07.06";
  access_expires_at = now + 6 * minute;
  refresh_expires_at = now + 720 * hour;
  remember = false;
}

refresh-once_example :
    refresh toy 0 (codes "03.02") home [] first_draws (now + 2 * minute) replaced
    ≢ (replaced, granted second_grant)
unfolding login check_password refresh is_empty trim_space normalize_username to_lower text_eq
    validate_password is_zero_hash prune_attempts insert_attempt stored_lt
refresh-once_example =
    refresh-once toy (5 * second) 0 (codes "03.02") home (codes "browser") (codes "03") (codes "02")
      next_draws (now + minute) after_login replaced second_grant (codes "03.02") home []
      (codes "03") first_draws (now + 2 * minute) replaced second_grant refl refl refl (omega arith)

abbrev first_input : LoginInput
first_input = record {
  username = codes "root";
  password = codes "secret";
  source_ip = home;
  user_agent = codes "browser";
  remember = false;
}

abbrev first_grant : LoginOutput
first_grant = record {
  admin = root;
  access_token = codes "01";
  refresh_cookie = codes "03.02";
  access_expires_at = now + 5 * minute;
  refresh_expires_at = now + 720 * hour;
  remember = false;
}

login-lets_in_example :
    (user_by_name (codes "root") at_first ≡ some root)
    × (toy.verify root.password (codes "secret") ≡ true)
    × ((s : Session) × (authenticate_access toy (codes "01") (now + minute) after_login
          ≡ granted (root, s)))
unfolding login check_password is_empty trim_space normalize_username to_lower text_eq
    validate_password is_zero_hash insert_session user_by_id
login-lets_in_example =
    login-lets_in toy first_input first_draws now (now + minute) at_first after_login first_grant
      refl (omega arith) refl refl refl
