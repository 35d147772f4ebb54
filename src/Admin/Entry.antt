-- ===== src/Admin/Entry.antt =====
-- A sign-in that is granted checked the password, and its access token lets the administrator in.
mod Stored
mod Granted
use grok2api.Prelude.{
  ℕ, zero, suc, ◌+◌, ◌-◌, ◌≤◌, ◌<◌, ◌≡◌, ◌≢◌, ◌⊎◌, refl, ap, sym, subst, ◌∙◌, Bool, true, false,
  not, ◌&&◌, ◌||◌, Option, none, some, some_injective, List, [], ◌∷◌, ◌++◌, All, All-append,
  All-map, ltb, ◌==◌, if◌then◌else◌, Bool-cases, inl, inr, arith, Text, codes, text_eq, text_eq_iff,
  text_eq_refl, is_empty, trim_space, to_lower, Time, Duration, second,
}
use grok2api.Client.Key.{is_zero_hash}
use grok2api.Admin.Session.{
  Session, Opened, opened, rejected, new_session, session_active, access_active,
}
use grok2api.Admin.User.{
  AdminUser, AttemptError, LoginAttempt, can_authenticate, normalize_username, validate_attempt,
}
use grok2api.Admin.Store.Times.{stored_lt, stored_lt-apart}
use grok2api.Admin.Store.Tables.{
  Tables, StoreError, find, count, delete_where, is_some, user_by_id, user_by_name, count_users,
}
use grok2api.Admin.Store.Reservations.{
  Reserved, reserved, over_limit, not_reserved, history_retention, insert_attempt, prune_attempts,
  drop_reservation, reserve_valid, reserve_attempt, reserve_checked, release_reservation,
  complete_failure, pending_code,
}
use grok2api.Admin.Store.Sessions.{
  session_row, clashes, fits, insert_session, prune_sessions, validate_session, record_success,
  added_with_success, add_reserved, create_with_reservation, find_by_access,
}
use grok2api.Admin.Service.Base.{
  Primitives, Draws, Answer, granted, denied, AuthError, LoginOutput, invalid_credentials,
  access_lifetime, cookie_of, admitted, found_access, authenticate_access,
}
use grok2api.Admin.Service.Login.{
  LoginInput, attempt_of, session_lifetime, failure_window, failure_limit, released, settled,
  all_tokens, settle_success, signed_in, open_session, refuse, check_user, check_password,
  after_reserve, login_valid, login,
}
use grok2api.Admin.Once.Rotation.{fits_clear, inserted}
use grok2api.Admin.Answers.{sides, not_granted}
use grok2api.Admin.Entry.Stored.{Issued, new_session-Issued, created-found}
use grok2api.Admin.Entry.Granted.{Entered, settled-denied, drawn-Entered}

-- What a user that is found by name has to bring.
module _ (p : Primitives) (input : LoginInput) (username ip : Text) (draws : Draws)
    (now later : Time) (u : Tables) (out : LoginOutput) (soon : later < now + access_lifetime) where
  user-Entered :
      (id : ℕ) (t : Tables) (o : Option AdminUser)
      → check_user p input username ip id draws now t o ≡ (u, granted out)
      → (Entered p later t u out)
        × (p.verify out.admin.password input.password ≡ true)
        × (o ≡ some out.admin)
  user-Entered id t none e = absurd (
      settled-denied id (complete_failure id (codes "invalid_credentials") t) invalid_credentials
        out u e)
  user-Entered id t (some a) e =
      elim (sides (can_authenticate p.is_bcrypt a && p.verify a.password input.password) e) [
        | inl x ↦
            let may : can_authenticate p.is_bcrypt a ≡ true = ground arith in
            let checked : p.verify a.password input.password ≡ true = ground arith in
            let h = drawn-Entered p input username ip id a now later t u out soon may _ x.1 in
            (
              h.0,
              subst (λ (b : AdminUser). p.verify b.password input.password ≡ true) (sym h.1)
                  checked,
              ap some (sym h.1),
            )
        | inr x ↦ absurd (
            settled-denied id (complete_failure id (codes "invalid_credentials") t)
              invalid_credentials out u x.1)
      ]

  after_reserve-Entered :
      (x : Tables × Reserved) (t : Tables)
      → x.0.users ≡ t.users
      → after_reserve p input username ip draws now x ≡ (u, granted out)
      → (Entered p later t u out)
        × (p.verify out.admin.password input.password ≡ true)
        × (user_by_name username t ≡ some out.admin)
  unfolding check_password user_by_name
  after_reserve-Entered (v, not_reserved e) t same f = absurd (not_granted _ u _ out f)
  after_reserve-Entered (v, over_limit) t same f = absurd (not_granted _ u _ out f)
  after_reserve-Entered (v, reserved id) t same f =
      let h = user-Entered id v (user_by_name username v) f in
      (
        record {
          session = h.0.session;
          found = h.0.found;
          users_kept = h.0.users_kept ∙ same;
          owner = h.0.owner;
          real = h.0.real;
          lives = h.0.lives;
          may_sign_in = h.0.may_sign_in;
        },
        h.1,
        subst
            (λ us.
              find (λ (u : AdminUser). text_eq (to_lower u.username) (normalize_username username))
                us
              ≡ some out.admin)
            same h.2,
      )

reserve_checked-users :
    (x : LoginAttempt × Option AttemptError) (since : Time) (limit : ℕ) (t : Tables)
    → (reserve_checked x since limit t).0.users ≡ t.users
unfolding reserve_valid
reserve_checked-users (a, some e) since limit t = refl
reserve_checked-users (a, none) since limit t = ground arith

login_valid-Entered :
    (p : Primitives) (input : LoginInput) (username ip : Text) (draws : Draws) (now later : Time)
    (a : LoginAttempt) (t u : Tables) (out : LoginOutput) (o : Option AttemptError)
    → later < now + access_lifetime
    → login_valid p input username ip draws now a t o ≡ (u, granted out)
    → (Entered p later t u out)
      × (p.verify out.admin.password input.password ≡ true)
      × (user_by_name username t ≡ some out.admin)
login_valid-Entered p input username ip draws now later a t u out (some x) soon e =
    absurd (not_granted _ u _ out e)
login_valid-Entered p input username ip draws now later a t u out none soon e =
    after_reserve-Entered p input username ip draws now later u out soon
      (reserve_attempt p.is_ip a (now - failure_window) failure_limit t) t
      (unfold reserve_attempt in
        reserve_checked-users (validate_attempt p.is_ip a) (now - failure_window) failure_limit t)
      e

Entered-lets_in :
    (p : Primitives) (later : Time) (t u : Tables) (out : LoginOutput) (h : Entered p later t u out)
    → is_empty (trim_space out.access_token) ≡ false
    → trim_space out.admin.id ≡ out.admin.id
    → user_by_id out.admin.id t ≡ some out.admin
    → authenticate_access p out.access_token later u ≡ granted (out.admin, h.session)
unfolding authenticate_access find_by_access user_by_id
Entered-lets_in p later t u out h named trimmed known =
    let real = h.real in
    let lives = h.lives in
    let may = h.may_sign_in in
    let s = h.session in
    let who : s.admin_user_id ≡ out.admin.id = h.owner ∙ (ap trim_space trimmed ∙ trimmed) in
    let lookup : user_by_id s.admin_user_id u ≡ some out.admin =
      subst (λ id. user_by_id id u ≡ some out.admin) (sym who)
        (subst
          (λ us.
            find (λ (x : AdminUser). text_eq x.id (trim_space out.admin.id)) us ≡ some out.admin)
          (sym h.users_kept) known) in
    let let_in : admitted p s (user_by_id s.admin_user_id u) ≡ granted (out.admin, s) =
      subst (λ o. admitted p s o ≡ granted (out.admin, s)) (sym lookup) (rw may refl) in
    let open_door : found_access p later u (some (some s)) ≡ granted (out.admin, s) =
      rw lives let_in in
    rw (named, real)
      (subst (λ o. found_access p later u (some o) ≡ granted (out.admin, s)) (sym h.found)
        open_door)

-- A sign-in that is granted is of the user of that name, whose password was checked; and until the
-- access token runs out, the token lets this user in, with a session of the store. The store is taken
-- to find the user by its id, which has no white space around it, and the token not to be blank.
pub login-lets_in :
    (p : Primitives) (input : LoginInput) (draws : Draws) (now later : Time) (t u : Tables)
    (out : LoginOutput)
    → login p input draws now t ≡ (u, granted out)
    → later < now + access_lifetime
    → is_empty (trim_space out.access_token) ≡ false
    → trim_space out.admin.id ≡ out.admin.id
    → user_by_id out.admin.id t ≡ some out.admin
    → (user_by_name (normalize_username input.username) t ≡ some out.admin)
      × (p.verify out.admin.password input.password ≡ true)
      × ((s : Session) × (authenticate_access p out.access_token later u ≡ granted (out.admin, s)))
unfolding login
login-lets_in p input draws now later t u out e soon named trimmed known =
    let username = normalize_username input.username in
    let ip = trim_space input.source_ip in
    let a = attempt_of username ip false pending_code now in
    let problem = (validate_attempt p.is_ip a).1 in
    elim (sides (count_users t == 0) e) [
      | inl x ↦ absurd (not_granted _ u _ out x.1)
      | inr x ↦ elim (sides (not (p.is_ip ip)) x.1) [
        | inl y ↦ absurd (not_granted _ u _ out y.1)
        | inr y ↦
            let h =
              login_valid-Entered p input username ip draws now later a t u out problem soon y.1 in
            (h.2, h.1, (h.0.session, Entered-lets_in p later t u out h.0 named trimmed known))
      ]
    ]
