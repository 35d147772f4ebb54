-- ===== src/Admin/Service/Refresh.antt =====
-- `Refresh` with its detection of replays, and `Logout`.
use grok2api.Prelude.{
  ℕ, ◌+◌, Bool, not, ◌&&◌, ◌||◌, Option, none, some, List, ltb, ◌==◌, if◌then◌else◌, Text, codes,
  trim_space, is_empty, text_eq, Time, Duration,
}
use grok2api.Admin.Session.{Session, Opened, opened, rejected, new_session, session_active}
use grok2api.Admin.User.{AdminUser, can_authenticate}
use grok2api.Admin.Store.Tables.{Tables, StoreError, hashes_required, user_by_id}
use grok2api.Admin.Store.Sessions.{get_session, find_by_access}
use grok2api.Admin.Store.Rotations.{
  RotationResult, rotation_done, rotation_refused, rotation_failed, rotate_session,
  revoke_admin_session, revoke_family,
}
use grok2api.Admin.Service.Base.{
  Primitives, Draws, Answer, granted, denied, LoginOutput, unauthorized, conflict, invalid_refresh,
  random_failed, store_failed, bad_session, random_token, access_lifetime, cookie_of, split_cookie,
}

-- A session that was replaced: its cookie is spent.
abbrev pub was_rotated : Session → Bool
was_rotated s = not (s.rotated_at == 0) || text_eq s.revocation_reason (codes "rotated")

abbrev pub in_grace : Duration → Time → Session → Bool
in_grace grace now s = not (s.rotated_at == 0) && ltb now (s.rotated_at + grace)

abbrev pub replayed : Tables × Option StoreError → Tables × Answer LoginOutput
replayed (t, none) = (t, denied invalid_refresh)
replayed (t, some e) = (t, denied (store_failed e))

abbrev pub rotated_to : LoginOutput → Tables × RotationResult → Tables × Answer LoginOutput
rotated_to out (t, rotation_done) = (t, granted out)
rotated_to out (t, rotation_refused) = (t, denied conflict)
rotated_to out (t, rotation_failed e) = (t, denied (store_failed e))

abbrev pub replace_with :
    Session
    → List ℕ
    → Text
    → Text
    → AdminUser
    → Text
    → Text
    → Text
    → Time
    → Tables
    → Opened
    → Tables × Answer LoginOutput
replace_with old secret ip agent u sid access refresh now t (rejected e) =
    (t, denied (bad_session e))
replace_with old secret ip agent u sid access refresh now t (opened s) =
    let replacement = record s { source_ip = ip; user_agent = agent; remember = old.remember } in
    rotated_to
      (record {
        admin = u;
        access_token = access;
        refresh_cookie = cookie_of sid refresh;
        access_expires_at = replacement.access_expires_at;
        refresh_expires_at = replacement.expires_at;
        remember = replacement.remember;
      })
      (rotate_session old.id secret replacement now t)

-- The tokens of a replacement, when all of them are drawn.
abbrev pub tokens_of :
    Option (List ℕ) → Option (List ℕ) → Option (List ℕ) → Option (Text × Text × Text)
tokens_of none _ _ = none
tokens_of (some a) none _ = none
tokens_of (some a) (some r) none = none
tokens_of (some a) (some r) (some s) = some (random_token a, random_token r, random_token s)

module _ (p : Primitives) where
  abbrev pub draw_replacement :
      Session
      → List ℕ
      → Text
      → Text
      → AdminUser
      → Time
      → Tables
      → Option (Text × Text × Text)
      → Tables × Answer LoginOutput
  draw_replacement old secret ip agent u now t none = (t, denied random_failed)
  draw_replacement old secret ip agent u now t (some (access, refresh, sid)) =
      replace_with old secret ip agent u sid access refresh now t (
        new_session sid old.family_id old.admin_user_id (p.sha256 access) (p.sha256 refresh)
          (now + access_lifetime) old.expires_at now)

  abbrev pub for_user :
      Session
      → List ℕ
      → Text
      → Text
      → Draws
      → Time
      → Tables
      → Option AdminUser
      → Tables × Answer LoginOutput
  for_user old secret ip agent draws now t none = (t, denied unauthorized)
  for_user old secret ip agent draws now t (some u) =
      if can_authenticate p.is_bcrypt u
      then draw_replacement old secret ip agent u now t
          (tokens_of draws.access draws.refresh draws.session)
      else (t, denied unauthorized)

  -- What is done with the session of a cookie.
  unfoldable pub refresh_session :
      Duration
      → Text
      → Text
      → Text
      → Draws
      → Time
      → Tables
      → Option Session
      → Tables × Answer LoginOutput
  unfolding can_authenticate user_by_id random_token new_session rotate_session revoke_family
      session_active
  refresh_session grace secret ip agent draws now t none = (t, denied invalid_refresh)
  refresh_session grace secret ip agent draws now t (some old) =
      let hash = p.sha256 secret in
      if not (text_eq old.refresh_secret_hash hash)
      then (t, denied invalid_refresh)
      else if was_rotated old
      then (if in_grace grace now old
          then (t, denied conflict)
          else replayed (revoke_family old.family_id now (codes "refresh_replayed") t))
      else if not (session_active now old)
      then (t, denied invalid_refresh)
      else for_user old hash ip agent draws now t (user_by_id old.admin_user_id t)

  abbrev pub refresh_cookie :
      Duration
      → Option (Text × Text)
      → Text
      → Text
      → Draws
      → Time
      → Tables
      → Tables × Answer LoginOutput
  refresh_cookie grace none ip agent draws now t = (t, denied invalid_refresh)
  refresh_cookie grace (some (id, secret)) ip agent draws now t =
      refresh_session grace secret ip agent draws now t (get_session id t)

  -- `Refresh`
  unfoldable pub refresh :
      Duration → Text → Text → Text → Draws → Time → Tables → Tables × Answer LoginOutput
  unfolding refresh_session get_session split_cookie
  refresh grace cookie ip agent draws now t =
      refresh_cookie grace (split_cookie cookie) ip agent draws now t

  abbrev pub logout_found :
      Text → Text → Time → Tables → Option Session → Tables × Option StoreError
  logout_found id secret now t none = (t, none)
  logout_found id secret now t (some old) =
      if text_eq old.refresh_secret_hash (p.sha256 secret)
      then revoke_admin_session id now (codes "logout") t
      else (t, none)

  abbrev pub logout_cookie : Option (Text × Text) → Time → Tables → Tables × Option StoreError
  logout_cookie none now t = (t, none)
  logout_cookie (some (id, secret)) now t =
      if is_empty id then (t, none) else logout_found id secret now t (get_session id t)

  -- `Logout`
  unfoldable pub logout : Text → Time → Tables → Tables × Option StoreError
  unfolding get_session split_cookie revoke_admin_session
  logout cookie now t = logout_cookie (split_cookie cookie) now t

  abbrev pub logout_session : Time → Tables → Option (Option Session) → Tables × Option StoreError
  logout_session now t none = (t, some hashes_required)
  logout_session now t (some none) = (t, none)
  logout_session now t (some (some s)) = revoke_admin_session s.id now (codes "logout") t

  -- `LogoutAccess`
  unfoldable pub logout_access : Text → Time → Tables → Tables × Option StoreError
  unfolding find_by_access revoke_admin_session
  logout_access token now t =
      if is_empty (trim_space token)
      then (t, none)
      else logout_session now t (find_by_access (p.sha256 token) t)
