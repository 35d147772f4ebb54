-- ===== src/Admin/User.antt =====
-- Administrators and their login attempts (adminauth.go). Whether a text is a bcrypt hash, or an IP
-- address, is what the libraries say.
use grok2api.Prelude.{
  ◌≡◌, ◌≢◌, Bool, true, false, not, ◌&&◌, Option, none, some, arith, ◌==◌, if◌then◌else◌, Text,
  codes, trim_space, to_lower, text_eq, is_empty, Time,
}

pub record PasswordCredential : Type 0 where
  pub scheme : Text
  pub hash : Text

pub record AdminUser : Type 0 where
  pub id : Text
  pub username : Text
  pub password : PasswordCredential
  pub role : Text
  pub enabled : Bool
  pub last_login_at : Time
  pub created_at : Time
  pub updated_at : Time

pub data UserError : Type 0 where
  unsupported_scheme hash_required not_bcrypt creation_time_required id_required username_required
        unsupported_role :
      UserError

-- `normalizeUsername`
unfoldable pub normalize_username : Text → Text
normalize_username value = to_lower (trim_space value)

abbrev pub administrator : Text
administrator = codes "administrator"

module _ (is_bcrypt : Text → Bool) where
  -- `PasswordCredential.Validate`
  unfoldable pub validate_password : PasswordCredential → Option UserError
  validate_password c =
      if not (text_eq c.scheme (codes "bcrypt_sha256_v1"))
      then some unsupported_scheme
      else if is_empty (trim_space c.hash)
      then some hash_required
      else if not (is_bcrypt c.hash)
      then some not_bcrypt
      else none

  -- `AdminUser.Validate`
  unfoldable pub validate_user : AdminUser → AdminUser × Option UserError
  unfolding validate_password
  validate_user u =
      let named = record u { id = trim_space u.id; username = normalize_username u.username } in
      let roled = record named { role = if is_empty u.role then administrator else u.role } in
      if is_empty named.id
      then (named, some id_required)
      else if is_empty named.username
      then (named, some username_required)
      else if not (text_eq roled.role administrator)
      then (roled, some unsupported_role)
      else (roled, validate_password u.password)

  -- `NewAdminUser`; the user is what a caller may use only without an error.
  unfoldable pub new_admin_user :
      Text → Text → PasswordCredential → Time → AdminUser × Option UserError
  unfolding validate_user
  new_admin_user id username credential at =
      let item : AdminUser = record {
        id = trim_space id;
        username = normalize_username username;
        password = credential;
        role = administrator;
        enabled = true;
        last_login_at = 0;
        created_at = at;
        updated_at = at;
      } in
      if at == 0 then (item, some creation_time_required) else validate_user item

  abbrev is_none : Option UserError → Bool
  is_none none = true
  is_none (some e) = false

  -- `CanAuthenticate`
  unfoldable pub can_authenticate : AdminUser → Bool
  can_authenticate u = u.enabled && is_none (validate_password u.password)

pub record LoginAttempt : Type 0 where
  pub username : Text
  pub source_ip : Text
  pub succeeded : Bool
  pub failure_code : Text
  pub created_at : Time

pub data AttemptError : Type 0 where
  time_required login_username_required source_ip_invalid code_on_success code_required :
      AttemptError

module _ (is_ip : Text → Bool) where
  -- `LoginAttempt.Validate`
  unfoldable pub validate_attempt : LoginAttempt → LoginAttempt × Option AttemptError
  validate_attempt a =
      let t = record a {
        username = normalize_username a.username;
        source_ip = trim_space a.source_ip;
        failure_code = trim_space a.failure_code;
      } in
      (
        t,
        if t.created_at == 0
            then some time_required
            else if is_empty t.username
            then some login_username_required
            else if not (is_ip t.source_ip)
            then some source_ip_invalid
            else if t.succeeded && not (is_empty t.failure_code)
            then some code_on_success
            else if not t.succeeded && is_empty t.failure_code
            then some code_required
            else none,
      )

-- An administrator that is created without an error is enabled, has a name, the role of an
-- administrator and a password that is checked, and so can sign in.
pub new_admin_user-can_authenticate :
    (is_bcrypt : Text → Bool) (id username : Text) (credential : PasswordCredential) (at : Time)
    → (new_admin_user is_bcrypt id username credential at).1 ≡ none
    → let u = (new_admin_user is_bcrypt id username credential at).0 in
      (can_authenticate is_bcrypt u ≡ true)
      × (is_empty u.username ≡ false)
      × (u.role ≡ administrator)
      × (is_bcrypt credential.hash ≡ true)
unfolding new_admin_user validate_user can_authenticate validate_password
new_admin_user-can_authenticate is_bcrypt id username credential at e =
    (ground arith, ground arith, ground arith, ground arith)

-- A login attempt that is accepted for the record has a valid address and a user name, and has a
-- failure code exactly when it failed.
pub validate_attempt-coherent :
    (is_ip : Text → Bool) (a : LoginAttempt)
    → (validate_attempt is_ip a).1 ≡ none
    → let t = (validate_attempt is_ip a).0 in
      (is_empty t.failure_code ≡ t.succeeded)
      × (is_ip t.source_ip ≡ true)
      × (is_empty t.username ≡ false)
      × (t.created_at ≢ 0)
unfolding validate_attempt
validate_attempt-coherent is_ip a e = (ground arith, ground arith, ground arith, ground arith)
