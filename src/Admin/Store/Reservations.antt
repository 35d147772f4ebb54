-- ===== src/Admin/Store/Reservations.antt =====
-- The statements on reservations: a sign-in reserves an attempt before the password is checked, and
-- then turns it into a failure, a success, or nothing.
use grok2api.Prelude.{
  ℕ, suc, ◌-◌, ◌*◌, Bool, false, not, ◌&&◌, ◌||◌, Option, none, some, [], ◌∷◌, ◌++◌, ltb, ◌==◌,
  if◌then◌else◌, Text, codes, trim_space, is_empty, text_eq, Time, Duration, hour,
}
use grok2api.Admin.User.{AttemptError, LoginAttempt, normalize_username, validate_attempt}
use grok2api.Admin.Store.Times.{stored_lt}
use grok2api.Admin.Store.Tables.{
  Tables, Reservation, StoreError, bad_attempt, reservation_required, reservation_inactive,
  pending_attempt_required, window_required, limit_required, failure_code_required, delete_where,
  find,
}
use grok2api.Admin.Store.Attempts.{by_name_and_ip, by_ip, used_attempts}

abbrev pub history_retention : Duration
history_retention = 30 * (24 * hour)

abbrev pub pending_code : Text
pending_code = codes "credential_check_pending"

pub data Reserved : Type 0 where
  reserved : ℕ → Reserved
  over_limit : Reserved
  not_reserved : StoreError → Reserved

abbrev pub add_reservation : LoginAttempt → Tables → Tables
add_reservation a t = record t {
  reservations =
      t.reservations
      ++ record {
        row = suc t.reservations_made;
        username = normalize_username a.username;
        source_ip = trim_space a.source_ip;
        created_at = a.created_at;
      }
        ∷ [];
  reservations_made = suc t.reservations_made;
}

-- `ReserveAdminLoginAttempt` once the attempt is valid.
unfoldable pub reserve_valid : LoginAttempt → Time → ℕ → Tables → Tables × Reserved
unfolding used_attempts
reserve_valid a since limit t =
    let ip = trim_space a.source_ip in
    if a.succeeded || not (text_eq a.failure_code pending_code)
    then (t, not_reserved pending_attempt_required)
    else if since == 0
    then (t, not_reserved window_required)
    else if limit == 0
    then (t, not_reserved limit_required)
    else if ltb (used_attempts (by_name_and_ip (normalize_username a.username) ip) since t) limit
        && ltb (used_attempts (by_ip ip) since t) limit
    then (add_reservation a t, reserved (suc t.reservations_made))
    else (t, over_limit)

-- `insertAdminLoginAttempt`
unfoldable pub insert_attempt : LoginAttempt → Tables → Tables
insert_attempt a t = record t {
  attempts =
      t.attempts
      ++ record {
        row = suc t.attempts_made;
        attempt = record a {
          username = normalize_username a.username;
          source_ip = trim_space a.source_ip;
        };
      }
        ∷ [];
  attempts_made = suc t.attempts_made;
}

-- `deleteAdminLoginAttemptsBefore`
unfoldable pub prune_attempts : Time → Tables → Tables
unfolding delete_where
prune_attempts cutoff t = record t {
  attempts = delete_where (λ r. stored_lt r.attempt.created_at cutoff) t.attempts;
}

abbrev pub reserve_checked :
    LoginAttempt × Option AttemptError → Time → ℕ → Tables → Tables × Reserved
reserve_checked (a, none) since limit t = reserve_valid a since limit t
reserve_checked (a, some e) since limit t = (t, not_reserved (bad_attempt e))

-- `ReserveAdminLoginAttempt`
unfoldable pub reserve_attempt :
    (Text → Bool) → LoginAttempt → Time → ℕ → Tables → Tables × Reserved
unfolding reserve_valid
reserve_attempt is_ip item since limit t =
    reserve_checked (validate_attempt is_ip item) since limit t

-- `RecordAdminLoginAttempt`
unfoldable pub record_attempt : (Text → Bool) → LoginAttempt → Tables → Tables × Option StoreError
unfolding insert_attempt prune_attempts
record_attempt is_ip item t =
    let (a, problem) = validate_attempt is_ip item in
    elim problem [
      | none ↦ (prune_attempts (a.created_at - history_retention) (insert_attempt a t), none)
      | some e ↦ (t, some (bad_attempt e))
    ]

-- `DELETE FROM admin_login_reservations WHERE id=?`
unfoldable pub drop_reservation : ℕ → Tables → Tables
unfolding delete_where
drop_reservation id t = record t { reservations = delete_where (λ r. r.row == id) t.reservations }

-- `ReleaseAdminLoginReservation`
unfoldable pub release_reservation : ℕ → Tables → Tables × Option StoreError
unfolding drop_reservation
release_reservation id t =
    if id == 0 then (t, some reservation_required) else (drop_reservation id t, none)

-- The row that a reservation becomes when its attempt fails.
abbrev pub failed_attempt : Text → Reservation → LoginAttempt
failed_attempt code r = record {
  username = r.username;
  source_ip = r.source_ip;
  succeeded = false;
  failure_code = code;
  created_at = r.created_at;
}

-- `INSERT INTO admin_login_attempts SELECT …`, with the columns as they stand in the reservation.
abbrev pub copy_failure : Text → Reservation → Tables → Tables
copy_failure code r t = record t {
  attempts =
      t.attempts ++ record { row = suc t.attempts_made; attempt = failed_attempt code r } ∷ [];
  attempts_made = suc t.attempts_made;
}

abbrev pub complete_found : ℕ → Text → Option Reservation → Tables → Tables × Option StoreError
complete_found id code none t = (t, some reservation_inactive)
complete_found id code (some r) t = (drop_reservation id (copy_failure code r t), none)

-- `CompleteAdminLoginFailure`; the reservations have different row numbers.
unfoldable pub complete_failure : ℕ → Text → Tables → Tables × Option StoreError
unfolding drop_reservation find
complete_failure id code t =
    let trimmed = trim_space code in
    if id == 0
    then (t, some reservation_required)
    else if is_empty trimmed || text_eq trimmed pending_code
    then (t, some failure_code_required)
    else complete_found id trimmed (find (λ r. r.row == id) t.reservations) t
