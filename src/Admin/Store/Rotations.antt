-- ===== src/Admin/Store/Rotations.antt =====
-- The statements that rotate and revoke sessions.
use grok2api.Prelude.{
  ℕ, ◌-◌, Bool, ◌&&◌, Option, none, some, List, [], ◌∷◌, ◌==◌, if◌then◌else◌, Text, codes,
  trim_space, is_empty, text_eq, Time,
}
use grok2api.Client.Key.{is_zero_hash}
use grok2api.Admin.Session.{Session}
use grok2api.Admin.Store.Times.{stored_lt}
use grok2api.Admin.Store.Tables.{
  Tables, StoreError, identity_required, hashes_required, time_required, reason_required,
  constraint_failed, count,
}
use grok2api.Admin.Store.Reservations.{history_retention}
use grok2api.Admin.Store.Sessions.{prune_sessions, insert_session, validate_session}

-- The `WHERE` of the rotation.
unfoldable pub rotatable : Text → List ℕ → Session → Time → Session → Bool
rotatable id secret replacement at s =
    text_eq s.id (trim_space id)
    && (text_eq s.refresh_secret_hash secret
        && (text_eq s.family_id replacement.family_id
            && (text_eq s.admin_user_id replacement.admin_user_id
                && (s.revoked_at == 0 && (s.rotated_at == 0 && stored_lt at s.expires_at)))))

abbrev pub rotated_row : Session → Time → Session → Session
rotated_row replacement at s = record s {
  rotated_at = at;
  revoked_at = at;
  revocation_reason = codes "rotated";
  replaced_by_session_id = replacement.id;
  last_seen_at = at;
}

-- `UPDATE … WHERE`
unfoldable pub update_where : (Session → Bool) → (Session → Session) → List Session → List Session
update_where wanted change [] = []
update_where wanted change (s ∷ ss) =
    (if wanted s then change s else s) ∷ update_where wanted change ss

pub data RotationResult : Type 0 where
  rotation_done rotation_refused : RotationResult
  rotation_failed : StoreError → RotationResult

abbrev pub rotation_added : Time → Tables → Option Tables → Tables × RotationResult
rotation_added at t none = (t, rotation_failed constraint_failed)
rotation_added at t (some u) = (prune_sessions (at - history_retention) u, rotation_done)

abbrev pub mark_rotated : Text → List ℕ → Session → Time → Tables → Tables
mark_rotated id secret replacement at t = record t {
  sessions =
      update_where (rotatable id secret replacement at) (rotated_row replacement at) t.sessions;
}

abbrev pub rotate_valid :
    Option StoreError → Text → List ℕ → Session → Time → Tables → Tables × RotationResult
rotate_valid (some e) id secret replacement at t = (t, rotation_failed e)
rotate_valid none id secret replacement at t =
    if count (rotatable id secret replacement at) t.sessions == 0
    then (t, rotation_refused)
    else rotation_added at t (insert_session replacement (mark_rotated id secret replacement at t))

-- `RotateAdminSession`
unfoldable pub rotate_session : Text → List ℕ → Session → Time → Tables → Tables × RotationResult
unfolding validate_session count rotatable update_where prune_sessions insert_session
rotate_session id secret replacement at t =
    if at == 0
    then (t, rotation_failed time_required)
    else if is_zero_hash secret
    then (t, rotation_failed hashes_required)
    else rotate_valid (validate_session replacement) id secret replacement at t

abbrev pub revoked_row : Time → Text → Session → Session
revoked_row at reason s = record s { revoked_at = at; revocation_reason = reason }

abbrev pub revoke_where : (Session → Bool) → Time → Text → Tables → Tables
revoke_where wanted at reason t = record t {
  sessions =
      update_where (λ (s : Session). wanted s && s.revoked_at == 0) (revoked_row at reason)
        t.sessions;
}

abbrev pub revocation : Text → Time → Text → (Session → Bool) → Tables → Tables × Option StoreError
revocation key at reason wanted t =
    if is_empty (trim_space key)
    then (t, some identity_required)
    else if at == 0
    then (t, some time_required)
    else if is_empty reason
    then (t, some reason_required)
    else (revoke_where wanted at reason t, none)

-- `RevokeAdminSession`
unfoldable pub revoke_admin_session : Text → Time → Text → Tables → Tables × Option StoreError
unfolding update_where
revoke_admin_session id at reason =
    revocation id at reason (λ (s : Session). text_eq s.id (trim_space id))

-- `RevokeAdminSessionFamily`
unfoldable pub revoke_family : Text → Time → Text → Tables → Tables × Option StoreError
unfolding update_where
revoke_family family at reason =
    revocation family at reason (λ (s : Session). text_eq s.family_id (trim_space family))
