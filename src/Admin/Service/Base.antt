-- ===== src/Admin/Service/Base.antt =====
-- What the operations of the service share: the libraries they call, their answers, and their tokens.
use grok2api.Prelude.{
  ℕ, ◌+◌, ◌/◌, ◌%◌, ◌*◌, Bool, Option, none, some, List, [], ◌∷◌, ◌++◌, ltb, ◌==◌, if◌then◌else◌,
  Text, codes, trim_space, is_empty, Time, Duration, minute,
}
use grok2api.Admin.Session.{Session, SessionError, access_active}
use grok2api.Admin.User.{AdminUser, PasswordCredential, AttemptError, can_authenticate}
use grok2api.Admin.Store.Tables.{Tables, StoreError, hashes_required, user_by_id}
use grok2api.Admin.Store.Sessions.{find_by_access}

-- What an IP address and a bcrypt hash are, SHA-256, and the comparison of a password.
pub record Primitives : Type 0 where
  pub is_ip : Text → Bool
  pub is_bcrypt : Text → Bool
  pub sha256 : Text → List ℕ
  pub verify : PasswordCredential → Text → Bool

-- The bytes that the random source gives, or its failure.
pub record Draws : Type 0 where
  pub access : Option (List ℕ)
  pub refresh : Option (List ℕ)
  pub session : Option (List ℕ)
  pub family : Option (List ℕ)

pub data AuthError : Type 0 where
  setup_required invalid_credentials unauthorized conflict invalid_refresh random_failed : AuthError
  rate_limited : Duration → AuthError
  store_failed : StoreError → AuthError
  bad_login : AttemptError → AuthError
  bad_session : SessionError → AuthError

pub data Answer {ℓ} (A : Type ℓ) : Type ℓ where
  granted : A → Answer A
  denied : AuthError → Answer A

pub record LoginOutput : Type 0 where
  pub admin : AdminUser
  pub access_token : Text
  pub refresh_cookie : Text
  pub access_expires_at : Time
  pub refresh_expires_at : Time
  pub remember : Bool

abbrev hex_digit : ℕ → ℕ
hex_digit d = if ltb d 10 then 48 + d else 87 + d

-- `randomToken`, on the bytes that were drawn
unfoldable pub random_token : List ℕ → Text
random_token [] = []
random_token (b ∷ bs) = hex_digit (b / 16) ∷ hex_digit (b % 16) ∷ random_token bs

abbrev pub access_lifetime : Duration
access_lifetime = 5 * minute

-- Both hands of a cookie.
abbrev pub cookie_of : Text → Text → Text
cookie_of id secret = id ++ codes "." ++ secret

abbrev after : ℕ → Option (Text × Text) → Option (Text × Text)
after c none = none
after c (some (id, secret)) = some (c ∷ id, secret)

-- `strings.SplitN(cookie, ".", 2)` when it has two parts
unfoldable pub split_cookie : Text → Option (Text × Text)
split_cookie [] = none
split_cookie (c ∷ cs) =
    let rest = split_cookie cs in if c == 46 then some ([], cs) else after c rest

module _ (p : Primitives) where
  -- The user of a session that is found, if it may sign in.
  abbrev pub admitted : Session → Option AdminUser → Answer (AdminUser × Session)
  admitted s none = denied unauthorized
  admitted s (some u) =
      if can_authenticate p.is_bcrypt u then granted (u, s) else denied unauthorized

  abbrev pub found_access : Time → Tables → Option (Option Session) → Answer (AdminUser × Session)
  found_access now t none = denied (store_failed hashes_required)
  found_access now t (some none) = denied unauthorized
  found_access now t (some (some s)) =
      if access_active now s then admitted s (user_by_id s.admin_user_id t) else denied unauthorized

  -- `AuthenticateAccess`
  unfoldable pub authenticate_access : Text → Time → Tables → Answer (AdminUser × Session)
  unfolding find_by_access access_active can_authenticate user_by_id
  authenticate_access token now t =
      if is_empty (trim_space token)
      then denied unauthorized
      else found_access now t (find_by_access (p.sha256 token) t)
