-- ===== src/Tests/Admin.antt =====
-- The theorems on administrators at concrete inputs.
use grok2api.Prelude.{◌≡◌, ◌≢◌, refl, false, none, [], ◌∷◌, codes, trim_space, is_empty, text_eq}
use grok2api.Admin.Session.{Session, session_active, revoke_session, rotate}
use grok2api.Admin.Rotation.{revokes, rotates, apply_ops, rotate-once}
use grok2api.Admin.User.{PasswordCredential, LoginAttempt}

abbrev session : Session
session = record {
  id = codes "s";
  family_id = codes "f";
  admin_user_id = codes "a";
  access_token_hash = 1 ∷ [];
  refresh_secret_hash = 2 ∷ [];
  source_ip = [];
  user_agent = [];
  remember = false;
  created_at = 10;
  access_expires_at = 20;
  expires_at = 30;
  last_seen_at = 10;
  revoked_at = 0;
  rotated_at = 0;
  replaced_by_session_id = [];
  revocation_reason = [];
}

abbrev next : Session
next = record session { id = codes "t" }

rotate-once_example :
    (apply_ops (rotates 16 next ∷ revokes 17 (codes "logout") ∷ []) (rotate 15 next session).0
      ≡ (rotate 15 next session).0)
    × ((rotate 18 next (
          apply_ops
            (rotates 16 next ∷ revokes 17 (codes "logout") ∷ [])
            (rotate 15 next session).0)).1
        ≢ none)
unfolding rotate revoke_session session_active trim_space is_empty text_eq
rotate-once_example =
    rotate-once 15 18 next next session (rotates 16 next ∷ revokes 17 (codes "logout") ∷ []) refl

abbrev password : PasswordCredential
password = record { scheme = codes "bcrypt_sha256_v1"; hash = codes "h" }

abbrev failed_login : LoginAttempt
failed_login = record {
  username = codes "root";
  source_ip = codes "::1";
  succeeded = false;
  failure_code = codes "bad_password";
  created_at = 1;
}
