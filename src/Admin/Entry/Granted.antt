-- ===== src/Admin/Entry/Granted.antt =====
-- A session that is opened for a user whose password was checked.
use grok2api.Prelude.{
  ℕ, ◌+◌, ◌<◌, ◌≡◌, ◌≢◌, refl, ap, subst, true, false, Option, none, some, arith, Text, text_eq,
  trim_space, Time,
}
use grok2api.Client.Key.{is_zero_hash}
use grok2api.Admin.Session.{Session, Opened, opened, rejected, session_active, access_active}
use grok2api.Admin.User.{AdminUser, AttemptError, LoginAttempt, can_authenticate}
use grok2api.Admin.Store.Tables.{Tables, StoreError, find}
use grok2api.Admin.Store.Sessions.{session_row, create_with_reservation}
use grok2api.Admin.Service.Base.{
  Primitives, Answer, granted, denied, AuthError, LoginOutput, access_lifetime, cookie_of,
}
use grok2api.Admin.Service.Login.{LoginInput, settled, settle_success, signed_in, open_session}
use grok2api.Admin.Answers.{not_granted}
use grok2api.Admin.Entry.Stored.{Issued, new_session-Issued, created-found}

-- What a sign-in leaves behind, for its access token.
pub record Entered (p : Primitives) (later : Time) (t u : Tables) (out : LoginOutput) : Type 0 where
  pub session : Session
  pub found :
      find (λ (x : Session). text_eq x.access_token_hash (p.sha256 out.access_token)) u.sessions
      ≡ some session
  pub users_kept : u.users ≡ t.users
  pub owner : session.admin_user_id ≡ trim_space (trim_space out.admin.id)
  pub real : is_zero_hash (p.sha256 out.access_token) ≡ false
  pub lives : access_active later session ≡ true
  pub may_sign_in : can_authenticate p.is_bcrypt out.admin ≡ true

abbrev or_this : LoginOutput → Answer LoginOutput → LoginOutput
or_this d (granted x) = x
or_this d (denied e) = d

settled-granted :
    (id : ℕ) (x : Tables × Option StoreError) (o out : LoginOutput) (u : Tables)
    → settled id x (granted o) ≡ (u, granted out)
    → (x ≡ (u, none)) × (o ≡ out)
settled-granted id (t, none) o out u e = (
  ap (λ (y : Tables × Answer LoginOutput). (y.0, none)) e,
  ap (λ (y : Tables × Answer LoginOutput). or_this o y.1) e,
)
settled-granted id (t, some x) o out u e = absurd (not_granted _ u _ out e)

pub settled-denied :
    (id : ℕ) (x : Tables × Option StoreError) (f : AuthError) (out : LoginOutput) (u : Tables)
    → settled id x (denied f) ≢ (u, granted out)
settled-denied id (t, none) f out u e = not_granted _ u _ out e
settled-denied id (t, some x) f out u e = not_granted _ u _ out e

module _ (p : Primitives) (input : LoginInput) (username ip : Text) (id : ℕ) (a : AdminUser)
    (now later : Time) (t u : Tables) (out : LoginOutput) (soon : later < now + access_lifetime)
    (may : can_authenticate p.is_bcrypt a ≡ true) where
  success-Entered :
      (access cookie : Text) (s : Session) (success : LoginAttempt) (o : Option AttemptError)
      → Issued a (p.sha256 access) now s
      → settle_success p input id a access cookie s success t o ≡ (u, granted out)
      → (Entered p later t u out) × (out.admin ≡ a)
  success-Entered access cookie s success (some x) h e = absurd (not_granted _ u _ out e)
  success-Entered access cookie s success none h e =
      let o : LoginOutput = record {
        admin = a;
        access_token = access;
        refresh_cookie = cookie;
        access_expires_at = s.access_expires_at;
        refresh_expires_at = s.expires_at;
        remember = s.remember;
      } in
      let x = settled-granted id (create_with_reservation p.is_ip id s success t) o out u e in
      let made = h.made in
      let until = h.until in
      let access_until = h.access_until in
      let alive = h.alive in
      let f = created-found p id s t u (omega (arith, made, until)) h.alive success x.0 in
      subst (λ (w : LoginOutput). (Entered p later t u w) × (w.admin ≡ a)) x.1
        (
          record {
            session = session_row s;
            found =
                subst
                  (λ k.
                    find (λ (y : Session). text_eq y.access_token_hash k) u.sessions
                    ≡ some (session_row s))
                  h.hash_is f.0;
            users_kept = f.1;
            owner = ap trim_space h.owner;
            real = h.real;
            lives = unfold access_active in unfold session_active in ground arith;
            may_sign_in = may;
          },
          refl,
        )

  opened-Entered :
      (access cookie : Text) (o : Opened)
      → ((s : Session) → o ≡ opened s → Issued a (p.sha256 access) now s)
      → signed_in p input username ip id a access cookie now t o ≡ (u, granted out)
      → (Entered p later t u out) × (out.admin ≡ a)
  opened-Entered access cookie (rejected x) h e = absurd (not_granted _ u _ out e)
  opened-Entered access cookie (opened s) h e =
      let i = h s refl in
      success-Entered access cookie _ _ _
        (record {
          hash_is = i.hash_is;
          real = i.real;
          owner = i.owner;
          alive = i.alive;
          access_until = i.access_until;
          until = i.until;
          made = i.made;
        })
        e

  pub drawn-Entered :
      (o : Option (Text × Text × Text × Text))
      → open_session p input username ip id a now t o ≡ (u, granted out)
      → (Entered p later t u out) × (out.admin ≡ a)
  drawn-Entered none e = absurd (not_granted _ u _ out e)
  drawn-Entered (some (access, refresh, sid, family)) e =
      opened-Entered access (cookie_of sid refresh) _
        (λ s f. new_session-Issued sid family a (p.sha256 access) (p.sha256 refresh) now s f) e
