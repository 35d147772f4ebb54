-- ===== src/Admin/Store/Sessions.antt =====
-- The statements on sessions.
use grok2api.Prelude.{
  ℕ, ◌-◌, Bool, not, ◌&&◌, ◌||◌, Option, none, some, List, [], ◌∷◌, ◌++◌, ltb, ◌==◌, length,
  if◌then◌else◌, Text, trim_space, is_empty, text_eq, Time,
}
use grok2api.Client.Key.{is_zero_hash}
use grok2api.Admin.Session.{Session}
use grok2api.Admin.User.{AttemptError, AdminUser, LoginAttempt, validate_attempt}
use grok2api.Admin.Store.Times.{stored_lt}
use grok2api.Admin.Store.Tables.{
  Tables, StoreError, identity_required, hashes_required, session_times_required, expiry_invalid,
  constraint_failed, bad_attempt, success_required, reservation_required, reservation_inactive,
  find, count, delete_where, is_some,
}
use grok2api.Admin.Store.Reservations.{
  insert_attempt, prune_attempts, drop_reservation, history_retention,
}

-- `validateSession`
unfoldable pub validate_session : Session → Option StoreError
validate_session s =
    if is_empty (trim_space s.id)
      || (is_empty (trim_space s.family_id) || is_empty (trim_space s.admin_user_id))
    then some identity_required
    else if is_zero_hash s.access_token_hash || is_zero_hash s.refresh_secret_hash
    then some hashes_required
    else if s.created_at == 0
        || (s.access_expires_at == 0 || (s.expires_at == 0 || s.last_seen_at == 0))
    then some session_times_required
    else if not (ltb s.created_at s.access_expires_at)
        || (not (ltb s.created_at s.expires_at) || ltb s.expires_at s.access_expires_at)
    then some expiry_invalid
    else none

abbrev pub session_row : Session → Session
session_row s = record s {
  id = trim_space s.id;
  family_id = trim_space s.family_id;
  admin_user_id = trim_space s.admin_user_id;
  source_ip = trim_space s.source_ip;
  user_agent = trim_space s.user_agent;
  replaced_by_session_id = trim_space s.replaced_by_session_id;
}

-- A row that the table already has, by its key or by one of its hashes.
abbrev pub clashes : Session → Session → Bool
clashes s o =
    text_eq o.id s.id
    || (text_eq o.access_token_hash s.access_token_hash
        || text_eq o.refresh_secret_hash s.refresh_secret_hash)

abbrev is_hash : List ℕ → Bool
is_hash h = length h == 32

-- What the schema asks of a row: its key and its hashes are its own, the hashes have 32 bytes, and the
-- user exists.
unfoldable pub fits : Session → Tables → Bool
unfolding find
fits s t =
    not (is_some (find (clashes s) t.sessions))
    && (is_hash s.access_token_hash
        && (is_hash s.refresh_secret_hash
            && is_some (find (λ (u : AdminUser). text_eq u.id s.admin_user_id) t.users)))

-- `insertAdminSession`; `none` is a constraint that fails.
unfoldable pub insert_session : Session → Tables → Option Tables
unfolding fits
insert_session item t =
    let s = session_row item in
    if fits s t then some (record t { sessions = t.sessions ++ s ∷ [] }) else none

-- `CreateAdminSession`
unfoldable pub create_session : Session → Tables → Tables × Option StoreError
unfolding insert_session validate_session
create_session item t = elim (validate_session item) [
  | some e ↦ (t, some e)
  | none ↦ elim (insert_session item t) [ none ↦ (t, some constraint_failed) | some u ↦ (u, none) ]
]

-- `deleteInactiveAdminSessionsBefore`
unfoldable pub prune_sessions : Time → Tables → Tables
unfolding delete_where
prune_sessions cutoff t = record t {
  sessions =
      delete_where
        (λ (s : Session).
          (not (s.expires_at == 0) && stored_lt s.expires_at cutoff)
          || (not (s.revoked_at == 0) && stored_lt s.revoked_at cutoff))
        t.sessions;
}

-- How many attempts and sessions went.
pub record PruneResult : Type 0 where
  pub attempts_deleted : ℕ
  pub sessions_deleted : ℕ

-- `PruneAdminAuthHistory`; `none` is a cutoff that is missing.
unfoldable pub prune_history : Time → Time → Tables → Tables × Option PruneResult
unfolding prune_attempts prune_sessions
prune_history attempts_before sessions_before t =
    let u = prune_sessions sessions_before (prune_attempts attempts_before t) in
    if attempts_before == 0 || sessions_before == 0 then (t, none) else (
      u,
      some (record {
        attempts_deleted = length t.attempts - length u.attempts;
        sessions_deleted = length t.sessions - length u.sessions;
      }),
    )

-- What a transaction does after the session is in: the attempt is recorded and old rows go.
abbrev pub record_success : Session → LoginAttempt → Tables → Tables
record_success s a t =
    prune_sessions (s.created_at - history_retention)
      (prune_attempts (a.created_at - history_retention) (insert_attempt a t))

abbrev pub added_with_success :
    Session → LoginAttempt → Tables → Option Tables → Tables × Option StoreError
added_with_success s a t none = (t, some constraint_failed)
added_with_success s a t (some u) = (record_success s a u, none)

abbrev pub add_reserved :
    ℕ
    → Session
    → LoginAttempt
    → Tables
    → Option StoreError
    → Option AttemptError
    → Tables × Option StoreError
add_reserved id s a t (some e) _ = (t, some e)
add_reserved id s a t none (some e) = (t, some (bad_attempt e))
add_reserved id s a t none none =
    if not a.succeeded
    then (t, some success_required)
    else if not (count (λ r. r.row == id) t.reservations == 1)
    then (t, some reservation_inactive)
    else added_with_success s a t (insert_session s (drop_reservation id t))

-- `CreateAdminSessionWithReservedLoginSuccess`
unfoldable pub create_with_reservation :
    (Text → Bool) → ℕ → Session → LoginAttempt → Tables → Tables × Option StoreError
unfolding validate_session count drop_reservation
create_with_reservation is_ip id s item t =
    let (a, problem) = validate_attempt is_ip item in
    if id == 0
    then (t, some reservation_required)
    else add_reserved id s a t (validate_session s) problem

abbrev pub add_success :
    Session
    → LoginAttempt
    → Tables
    → Option StoreError
    → Option AttemptError
    → Tables × Option StoreError
add_success s a t (some e) _ = (t, some e)
add_success s a t none (some e) = (t, some (bad_attempt e))
add_success s a t none none =
    if not a.succeeded
    then (t, some success_required)
    else added_with_success s a t (insert_session s t)

-- `CreateAdminSessionWithLoginSuccess`
unfoldable pub create_with_success :
    (Text → Bool) → Session → LoginAttempt → Tables → Tables × Option StoreError
unfolding validate_session
create_with_success is_ip s item t =
    let (a, problem) = validate_attempt is_ip item in add_success s a t (validate_session s) problem

-- `GetAdminSession`
unfoldable pub get_session : Text → Tables → Option Session
unfolding find
get_session id t = find (λ (s : Session). text_eq s.id (trim_space id)) t.sessions

-- `FindAdminSessionByAccessHash`; a hash of zeros is an error.
unfoldable pub find_by_access : List ℕ → Tables → Option (Option Session)
unfolding find
find_by_access hash t =
    if is_zero_hash hash
    then none
    else some (find (λ (s : Session). text_eq s.access_token_hash hash) t.sessions)
