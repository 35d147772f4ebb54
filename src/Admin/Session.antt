-- ===== src/Admin/Session.antt =====
-- The refresh sessions of an administrator (adminauth.go). A hash is the list of its bytes.
use grok2api.Prelude.{
  ℕ, Bool, false, not, ◌&&◌, ◌||◌, Option, none, some, List, [], ltb, ◌==◌, if◌then◌else◌, Text,
  codes, trim_space, text_eq, is_empty, Time,
}
use grok2api.Client.Key.{is_zero_hash}

pub record Session : Type 0 where
  pub id : Text
  pub family_id : Text
  pub admin_user_id : Text
  pub access_token_hash : List ℕ
  pub refresh_secret_hash : List ℕ
  pub source_ip : Text
  pub user_agent : Text
  pub remember : Bool
  pub created_at : Time
  pub access_expires_at : Time
  pub expires_at : Time
  pub last_seen_at : Time
  pub revoked_at : Time
  pub rotated_at : Time
  pub replaced_by_session_id : Text
  pub revocation_reason : Text

pub data SessionError : Type 0 where
  creation_time_required identity_required hashes_required access_expiry_not_after_creation
        expiry_not_after_creation access_outlives_session revocation_time_required
        revocation_reason_required invalid_replacement other_owner no_longer_rotatable inactive :
      SessionError

pub data Opened : Type 0 where
  opened : Session → Opened
  rejected : SessionError → Opened

-- `NewSession`
unfoldable pub new_session : Text → Text → Text → List ℕ → List ℕ → Time → Time → Time → Opened
new_session id family admin access refresh access_expires expires at =
    let item : Session = record {
      id = trim_space id;
      family_id = trim_space family;
      admin_user_id = trim_space admin;
      access_token_hash = access;
      refresh_secret_hash = refresh;
      source_ip = [];
      user_agent = [];
      remember = false;
      created_at = at;
      access_expires_at = access_expires;
      expires_at = expires;
      last_seen_at = at;
      revoked_at = 0;
      rotated_at = 0;
      replaced_by_session_id = [];
      revocation_reason = [];
    } in
    if at == 0
    then rejected creation_time_required
    else if is_empty item.id || (is_empty item.family_id || is_empty item.admin_user_id)
    then rejected identity_required
    else if is_zero_hash access || is_zero_hash refresh
    then rejected hashes_required
    else if access_expires == 0 || not (ltb at access_expires)
    then rejected access_expiry_not_after_creation
    else if expires == 0 || not (ltb at expires)
    then rejected expiry_not_after_creation
    else if ltb expires access_expires
    then rejected access_outlives_session
    else opened item

-- `Active`
unfoldable pub session_active : Time → Session → Bool
session_active at s = s.revoked_at == 0 && (not (s.expires_at == 0) && ltb at s.expires_at)

-- `AccessActive`
unfoldable pub access_active : Time → Session → Bool
unfolding session_active
access_active at s =
    session_active at s && (not (s.access_expires_at == 0) && ltb at s.access_expires_at)

-- `Revoke`
unfoldable pub revoke_session : Time → Text → Session → Session × Option SessionError
revoke_session at reason s =
    if at == 0
    then (s, some revocation_time_required)
    else if is_empty reason
    then (s, some revocation_reason_required)
    else if not (s.revoked_at == 0)
    then (s, none)
    else (record s { revoked_at = at; revocation_reason = reason }, none)

-- `Rotate`
unfoldable pub rotate : Time → Session → Session → Session × Option SessionError
unfolding revoke_session
rotate at replacement s =
    let id = trim_space replacement.id in
    if is_empty id || text_eq id s.id
    then (s, some invalid_replacement)
    else if not (text_eq replacement.family_id s.family_id)
        || not (text_eq replacement.admin_user_id s.admin_user_id)
    then (s, some other_owner)
    else if not (s.rotated_at == 0) || not (s.revoked_at == 0)
    then (s, some no_longer_rotatable)
    else if not (session_active at s)
    then (s, some inactive)
    else revoke_session at (codes "rotated")
        (record s { rotated_at = at; replaced_by_session_id = id })
