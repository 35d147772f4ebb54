-- ===== src/Admin/Entry/Stored.antt =====
-- The session that a sign-in stores is found by its access token.
use grok2api.Prelude.{
  ℕ, ◌+◌, ◌-◌, ◌≤◌, ◌≡◌, refl, ap, subst, Bool, true, false, not, ◌&&◌, ◌||◌, Option, none, some,
  List, [], ◌∷◌, ◌++◌, All, All-map, ◌==◌, Bool-cases, inl, inr, arith, Text, text_eq, text_eq_refl,
  trim_space, Time, second,
}
use grok2api.Client.Key.{is_zero_hash}
use grok2api.Admin.Session.{Session, opened, new_session}
use grok2api.Admin.User.{AdminUser, AttemptError, LoginAttempt}
use grok2api.Admin.Store.Times.{stored_lt, stored_lt-apart}
use grok2api.Admin.Store.Tables.{Tables, StoreError, find, count, delete_where}
use grok2api.Admin.Store.Reservations.{
  history_retention, insert_attempt, prune_attempts, drop_reservation,
}
use grok2api.Admin.Store.Sessions.{
  session_row, insert_session, prune_sessions, validate_session, record_success, added_with_success,
  add_reserved, create_with_reservation,
}
use grok2api.Admin.Service.Base.{Primitives, access_lifetime}
use grok2api.Admin.Service.Login.{session_lifetime}
use grok2api.Admin.Once.Rotation.{fits_clear, inserted}
use grok2api.Admin.Answers.{sides}

-- The row that a search finds behind rows that do not match.
find-last {ℓ} :
    {A : Type ℓ} (g gone : A → Bool) (xs : List A) (x : A)
    → All (λ y. g y ≡ false) xs
    → g x ≡ true
    → gone x ≡ false
    → find g (delete_where gone (xs ++ x ∷ [])) ≡ some x
unfolding find delete_where
find-last g gone [] x h here kept = rw (kept, here) refl
find-last g gone (y ∷ ys) x h here kept = elim (Bool-cases (gone y)) [
  | inl goes ↦ rw goes (find-last g gone ys x h.1 here kept)
  | inr stays ↦ rw (stays, h.0) (find-last g gone ys x h.1 here kept)
]

-- A session that the service has just issued.
pub record Issued (u : AdminUser) (hash : List ℕ) (now : Time) (s : Session) : Type 0 where
  pub hash_is : s.access_token_hash ≡ hash
  pub real : is_zero_hash hash ≡ false
  pub owner : s.admin_user_id ≡ trim_space u.id
  pub alive : s.revoked_at ≡ 0
  pub access_until : s.access_expires_at ≡ now + access_lifetime
  pub until : s.expires_at ≡ now + session_lifetime
  pub made : s.created_at ≡ now

pub new_session-Issued :
    (sid family : Text) (u : AdminUser) (access refresh : List ℕ) (now : Time) (s : Session)
    → new_session sid family u.id access refresh
        (now + access_lifetime)
        (now + session_lifetime)
        now
      ≡ opened s
    → Issued u access now s
unfolding new_session
new_session-Issued sid family u access refresh now s e = record {
  hash_is = ground arith;
  real = ground arith;
  owner = ground arith;
  alive = ground arith;
  access_until = ground arith;
  until = ground arith;
  made = ground arith;
}

module _ (s : Session) (a : LoginAttempt) (before t u : Tables)
    (long : (s.created_at - history_retention) + second ≤ s.expires_at)
    (alive : s.revoked_at ≡ 0) where
  -- A session that goes in with a success is found by its access token.
  added-found :
      (o : Option Tables)
      → insert_session s t ≡ o
      → added_with_success s a before o ≡ (u, none)
      → (find (λ (x : Session). text_eq x.access_token_hash s.access_token_hash) u.sessions
          ≡ some (session_row s))
        × (u.users ≡ t.users)
  unfolding prune_sessions prune_attempts insert_attempt
  added-found none f e = let never = ap (λ (x : Tables × Option StoreError). x.1) e in cc
  added-found (some v) f e =
      let h = inserted s t v f in
      let clear = fits_clear (session_row s) t h.0 in
      let kept = stored_lt-apart s.expires_at (s.created_at - history_retention) long in
      let row = session_row s in
      let hash = s.access_token_hash in
      let cutoff = s.created_at - history_retention in
      let gone : Session → Bool = λ x.
        (not (x.expires_at == 0) && stored_lt x.expires_at cutoff)
        || (not (x.revoked_at == 0) && stored_lt x.revoked_at cutoff) in
      let others : All (λ (o : Session). text_eq o.access_token_hash hash ≡ false) t.sessions =
        All-map t.sessions (λ o k. ground arith) clear in
      let stays : gone row ≡ false = ground arith in
      let found =
        find-last (λ (x : Session). text_eq x.access_token_hash hash) gone t.sessions row others
          (text_eq_refl hash) stays in
      subst
        (λ (w : Tables).
          (find (λ (x : Session). text_eq x.access_token_hash hash) w.sessions ≡ some row)
          × (w.users ≡ t.users))
        (ap (λ (x : Tables × Option StoreError). x.0) e)
        (subst
          (λ (w : Tables).
            (find (λ (x : Session). text_eq x.access_token_hash hash)
                (record_success s a w).sessions
              ≡ some row)
            × ((record_success s a w).users ≡ t.users))
          h.1 (found, refl))

module _ (p : Primitives) (id : ℕ) (s : Session) (t u : Tables)
    (long : (s.created_at - history_retention) + second ≤ s.expires_at)
    (alive : s.revoked_at ≡ 0) where
  reserved-found :
      (a : LoginAttempt) (bad : Option StoreError) (problem : Option AttemptError)
      → add_reserved id s a t bad problem ≡ (u, none)
      → (find (λ (x : Session). text_eq x.access_token_hash s.access_token_hash) u.sessions
          ≡ some (session_row s))
        × (u.users ≡ t.users)
  reserved-found a (some x) problem e =
      let never = ap (λ (x : Tables × Option StoreError). x.1) e in cc
  reserved-found a none (some x) e =
      let never = ap (λ (x : Tables × Option StoreError). x.1) e in cc
  reserved-found a none none e = elim (sides (not a.succeeded) e) [
    | inl x ↦ let never = ap (λ (x : Tables × Option StoreError). x.1) x.1 in cc
    | inr x ↦ elim (sides (not (count (λ r. r.row == id) t.reservations == 1)) x.1) [
      | inl y ↦ let never = ap (λ (x : Tables × Option StoreError). x.1) y.1 in cc
      | inr y ↦
          unfold drop_reservation in
          added-found s a t (drop_reservation id t) u long alive _ refl y.1
    ]
  ]

  pub created-found :
      (item : LoginAttempt)
      → create_with_reservation p.is_ip id s item t ≡ (u, none)
      → (find (λ (x : Session). text_eq x.access_token_hash s.access_token_hash) u.sessions
          ≡ some (session_row s))
        × (u.users ≡ t.users)
  unfolding create_with_reservation
  created-found item e = elim (sides (id == 0) e) [
    | inl x ↦ let never = ap (λ (x : Tables × Option StoreError). x.1) x.1 in cc
    | inr x ↦ reserved-found _ (validate_session s) _ x.1
  ]
