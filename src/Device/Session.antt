-- ===== src/Device/Session.antt =====
-- A session of the device flow, and its rows in the store
-- (backend/internal/infra/persistence/sqlite/deviceauth.go).
use grok2api.Prelude.{
  ℕ, Bool, true, false, ◌||◌, ◌&&◌, Option, none, some, List, [], ◌∷◌, ◌==◌, if◌then◌else◌, Text,
  codes, trim_space, is_empty, text_eq, Time,
}

pub data DeviceStatus : Type 0 where
  pending slow_down expired denied cancelled succeeded failed : DeviceStatus

pub record DeviceSession : Type 0 where
  pub id : Text
  pub status : DeviceStatus
  pub issuer : Text
  pub client_id : Text
  pub scope : Text
  pub user_code : Text
  pub verification_uri : Text
  pub verification_uri_complete : Text
  pub device_code : Text
  pub interval_sec : ℕ
  pub expires_at : Time
  pub last_error : Text
  pub account_id : Text
  pub created_at : Time
  pub updated_at : Time
  pub completed_at : Time

-- A slash at the end goes, and so do those before it.
unfoldable pub trim_slashes : Text → Text
trim_slashes [] = []
trim_slashes (c ∷ cs) =
    let rest = trim_slashes cs in if is_empty rest && c == 47 then [] else c ∷ rest

abbrev or_text : Text → Text → Text
or_text default text = if is_empty text then default else text

-- The fields that `Session.Normalize` sets at the time `wall`.
unfoldable pub normal : Time → DeviceSession → DeviceSession
unfolding trim_slashes
normal wall s = record s {
  id = trim_space s.id;
  issuer = or_text (codes "https://auth.x.ai") (trim_slashes (trim_space s.issuer));
  client_id = trim_space s.client_id;
  interval_sec = if s.interval_sec == 0 then 5 else s.interval_sec;
  created_at = if s.created_at == 0 then wall else s.created_at;
  updated_at = wall;
}

-- `Session.Normalize`; `none` is a session that it rejects.
unfoldable pub normalize_session : Time → DeviceSession → Option DeviceSession
unfolding normal
normalize_session wall s =
    if is_empty (trim_space s.id) || is_empty (trim_space s.client_id)
    then none
    else some (normal wall s)

-- `GetDeviceAuthSession`
unfoldable pub get_device : Text → List DeviceSession → Option DeviceSession
get_device id [] = none
get_device id (s ∷ ss) = if text_eq s.id (trim_space id) then some s else get_device id ss

-- `UPDATE … WHERE id=?`, which leaves the time of creation.
unfoldable pub write_device : DeviceSession → List DeviceSession → List DeviceSession
write_device n [] = []
write_device n (s ∷ ss) =
    (if text_eq s.id n.id then record n { created_at = s.created_at } else s) ∷ write_device n ss

abbrev pub write_normal : Option DeviceSession → List DeviceSession → List DeviceSession × Bool
write_normal none ss = (ss, false)
write_normal (some n) ss = (write_device n ss, true)

-- `UpdateDeviceAuthSession`: whether it was written, when the database takes it.
unfoldable pub update_device :
    Bool → Time → DeviceSession → List DeviceSession → List DeviceSession × Bool
unfolding normalize_session write_device
update_device takes wall s ss =
    if takes then write_normal (normalize_session wall s) ss else (ss, false)
