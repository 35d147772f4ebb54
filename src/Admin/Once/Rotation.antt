-- ===== src/Admin/Once/Rotation.antt =====
-- A rotation in the store leaves no session with its secret that could be rotated again.
use grok2api.Prelude.{
  ℕ, ◌≤◌, ◌≡◌, ◌≢◌, refl, ap, sym, subst, ◌∙◌, Bool, true, false, Option, none, some,
  some_injective, List, [], ◌∷◌, ◌++◌, All, All-append, ◌==◌, Bool-cases, inl, inr, arith, Text,
  text_eq, text_eq_iff, Time,
}
use grok2api.Client.Key.{is_zero_hash}
use grok2api.Admin.Session.{Session}
use grok2api.Admin.Store.Tables.{Tables, StoreError, find, count, delete_where, is_some}
use grok2api.Admin.Store.Sessions.{
  session_row, clashes, fits, insert_session, prune_sessions, validate_session,
}
use grok2api.Admin.Store.Rotations.{
  RotationResult, rotation_done, rotatable, rotated_row, update_where, rotation_added, mark_rotated,
  rotate_valid, rotate_session,
}
use grok2api.Admin.Limit.Counts.{count_mono}
use grok2api.Admin.Answers.{sides}

All-delete_where {ℓ κ} :
    {A : Type ℓ} (P : A → Type κ) (g : A → Bool) (xs : List A)
    → All P xs
    → All P (delete_where g xs)
unfolding delete_where
All-delete_where P g [] h = tt
All-delete_where P g (x ∷ xs) h = elim (Bool-cases (g x)) [
  | inl gone ↦ rw gone (All-delete_where P g xs h.1)
  | inr kept ↦ rw kept (h.0, All-delete_where P g xs h.1)
]

none_found {ℓ} :
    {A : Type ℓ} (g : A → Bool) (xs : List A)
    → is_some (find g xs) ≡ false
    → All (λ x. g x ≡ false) xs
unfolding find
none_found g [] e = tt
none_found g (x ∷ xs) e = elim (Bool-cases (g x)) [
  | inl here ↦ ground arith
  | inr there ↦ (there, none_found g xs (ground arith))
]

-- The session with this secret can no longer be rotated.
abbrev pub Spent : List ℕ → Session → Type 0
Spent hash s = s.refresh_secret_hash ≡ hash → s.rotated_at ≢ 0

module _ (hash : List ℕ) (wanted : Session → Bool) (replacement : Session) (at : Time)
    (late : at ≢ 0) (owned : (s : Session) → wanted s ≡ true → s.refresh_secret_hash ≡ hash) where
  abbrev holds_secret : Session → Bool
  holds_secret s = text_eq s.refresh_secret_hash hash

  abbrev marked : List Session → List Session
  marked = update_where wanted (rotated_row replacement at)

  none_left : (ss : List Session) → count holds_secret ss ≡ 0 → All (Spent hash) (marked ss)
  unfolding count update_where
  none_left [] e = tt
  none_left (s ∷ ss) e = (
    λ h. ground (arith, owned s, text_eq_iff s.refresh_secret_hash hash),
    none_left ss (ground arith),
  )

  all-Spent :
      (ss : List Session)
      → count holds_secret ss ≤ 1
      → count wanted ss ≢ 0
      → All (Spent hash) (marked ss)
  unfolding count update_where
  all-Spent [] one some_wanted = tt
  all-Spent (s ∷ ss) one some_wanted = elim (Bool-cases (wanted s)) [
    | inl mine ↦
        let holds = (text_eq_iff s.refresh_secret_hash hash).1 (owned s mine) in
        rw mine ((λ h. late), none_left ss (ground arith))
    | inr other ↦
        let fewer =
          count_mono wanted holds_secret ss
            (λ x w. (text_eq_iff x.refresh_secret_hash hash).1 (owned x w)) in
        rw other (
          (λ h. ground (arith, text_eq_iff s.refresh_secret_hash hash)),
          all-Spent ss (ground arith) (ground arith),
        )
  ]

  fresh_secret :
      (row : Session) (ss : List Session)
      → All (λ o. clashes row o ≡ false) (marked ss)
      → count wanted ss ≢ 0
      → row.refresh_secret_hash ≢ hash
  unfolding count update_where
  fresh_secret row [] h some_wanted = ground arith
  fresh_secret row (s ∷ ss) h some_wanted = elim (Bool-cases (wanted s)) [
    | inl mine ↦ λ e.
        let met =
          (text_eq_iff s.refresh_secret_hash row.refresh_secret_hash).1 (owned s mine ∙ sym e) in
        let apart = h.0 in ground arith
    | inr other ↦ fresh_secret row ss h.1 (ground arith)
  ]

rotatable-owned :
    (id : Text) (hash : List ℕ) (replacement : Session) (at : Time) (s : Session)
    → rotatable id hash replacement at s ≡ true
    → s.refresh_secret_hash ≡ hash
unfolding rotatable
rotatable-owned id hash replacement at s h = ground (arith, text_eq_iff s.refresh_secret_hash hash)

pub fits_clear :
    (s : Session) (t : Tables) → fits s t ≡ true → All (λ o. clashes s o ≡ false) t.sessions
unfolding fits
fits_clear s t h = none_found (clashes s) t.sessions (ground arith)

pub inserted :
    (s : Session) (t u : Tables)
    → insert_session s t ≡ some u
    → (fits (session_row s) t ≡ true)
      × (record t { sessions = t.sessions ++ session_row s ∷ [] } ≡ u)
unfolding insert_session
inserted s t u e = elim (Bool-cases (fits (session_row s) t)) [
  | inl ok ↦
      let same : some (record t { sessions = t.sessions ++ session_row s ∷ [] }) ≡ some u =
        ground arith in
      (ok, some_injective same)
  | inr clash ↦ ground arith
]

module _ (id : Text) (hash : List ℕ) (replacement : Session) (at : Time) (t u : Tables)
    (one : count (λ (s : Session). text_eq s.refresh_secret_hash hash) t.sessions ≤ 1) where
  added-Spent :
      (o : Option Tables)
      → insert_session replacement (mark_rotated id hash replacement at t) ≡ o
      → rotation_added at t o ≡ (u, rotation_done)
      → at ≢ 0
      → count (rotatable id hash replacement at) t.sessions ≢ 0
      → All (Spent hash) u.sessions
  unfolding prune_sessions
  added-Spent none f e late some_wanted =
      let never = ap (λ (x : Tables × RotationResult). x.1) e in cc
  added-Spent (some v) f e late some_wanted =
      let owned = rotatable-owned id hash replacement at in
      let wanted = rotatable id hash replacement at in
      let row = session_row replacement in
      let h = inserted replacement (mark_rotated id hash replacement at t) v f in
      let clear = fits_clear row (mark_rotated id hash replacement at t) h.0 in
      let new =
        fresh_secret hash wanted replacement at late owned row t.sessions clear some_wanted in
      let spent = all-Spent hash wanted replacement at late owned t.sessions one some_wanted in
      let before = All-append (Spent hash) _ (row ∷ []) spent ((λ x. absurd (new x)), tt) in
      subst (λ (y : Tables). All (Spent hash) y.sessions)
        (ap (λ (x : Tables × RotationResult). x.0) e)
        (All-delete_where (Spent hash) _ v.sessions
          (subst (λ (y : Tables). All (Spent hash) y.sessions) h.1 before))

  valid-Spent :
      (o : Option StoreError)
      → rotate_valid o id hash replacement at t ≡ (u, rotation_done)
      → at ≢ 0
      → All (Spent hash) u.sessions
  valid-Spent (some x) e late = let never = ap (λ (x : Tables × RotationResult). x.1) e in cc
  valid-Spent none e late =
      let wanted = rotatable id hash replacement at in
      let o = insert_session replacement (mark_rotated id hash replacement at t) in
      elim (sides (count wanted t.sessions == 0) e) [
        | inl x ↦ let never = ap (λ (x : Tables × RotationResult). x.1) x.1 in cc
        | inr x ↦ added-Spent o refl x.1 late (ground arith)
      ]

  pub rotate_session-Spent :
      rotate_session id hash replacement at t ≡ (u, rotation_done) → All (Spent hash) u.sessions
  unfolding rotate_session
  rotate_session-Spent e = elim (sides (at == 0) e) [
    | inl x ↦ let never = ap (λ (x : Tables × RotationResult). x.1) x.1 in cc
    | inr x ↦ elim (sides (is_zero_hash hash) x.1) [
      | inl y ↦ let never = ap (λ (x : Tables × RotationResult). x.1) y.1 in cc
      | inr y ↦ valid-Spent (validate_session replacement) y.1 (ground arith)
    ]
  ]
