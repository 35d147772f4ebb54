-- ===== src/Admin/Admission.antt =====
-- Whom an access token lets in.
use grok2api.Prelude.{
  ℕ, ◌<◌, ◌≡◌, ap, subst, Bool, true, Option, none, some, some_injective, List, [], ◌∷◌, All,
  Bool-cases, inl, inr, arith, Text, text_eq, text_eq_iff, is_empty, trim_space, Time,
}
use grok2api.Client.Key.{is_zero_hash}
use grok2api.Admin.Session.{Session, session_active, access_active}
use grok2api.Admin.User.{AdminUser, can_authenticate}
use grok2api.Admin.Store.Tables.{Tables, find, user_by_id}
use grok2api.Admin.Store.Sessions.{find_by_access}
use grok2api.Admin.Service.Base.{
  Primitives, Answer, granted, denied, admitted, found_access, authenticate_access,
}

pub find_holds {ℓ} :
    {A : Type ℓ} (g : A → Bool) (xs : List A) (x : A) → find g xs ≡ some x → g x ≡ true
unfolding find
find_holds g [] x e = cc
find_holds g (y ∷ ys) x e = elim (Bool-cases (g y)) [
  | inl here ↦
      let same : some y ≡ some x = ground arith in
      subst (λ z. g z ≡ true) (some_injective same) here
  | inr there ↦ find_holds g ys x (ground arith)
]

pub find-All {ℓ κ} :
    {A : Type ℓ} (P : A → Type κ) (g : A → Bool) (xs : List A) (x : A)
    → All P xs
    → find g xs ≡ some x
    → P x
unfolding find
find-All P g [] x h e = cc
find-All P g (y ∷ ys) x h e = elim (Bool-cases (g y)) [
  | inl here ↦ let same : some y ≡ some x = ground arith in subst P (some_injective same) h.0
  | inr there ↦ find-All P g ys x h.1 (ground arith)
]

-- The user and the session of a grant.
pub record Admitted (p : Primitives) (token : Text) (now : Time) (u : AdminUser) (s : Session)
    : Type 0 where
  pub owns_token : s.access_token_hash ≡ p.sha256 token
  pub not_revoked : s.revoked_at ≡ 0
  pub before_expiry : now < s.access_expires_at
  pub session_alive : now < s.expires_at
  pub may_sign_in : can_authenticate p.is_bcrypt u ≡ true
  pub same_user : u.id ≡ trim_space s.admin_user_id

abbrev or_this {ℓ} : {A : Type ℓ} → A → Answer A → A
or_this d (granted x) = x
or_this d (denied e) = d

granted_injective {ℓ} : {A : Type ℓ} {x y : A} → granted x ≡ granted y → x ≡ y
granted_injective {x = x} e = ap (or_this x) e

module _ (p : Primitives) (now : Time) (t : Tables) (u : AdminUser) (s : Session) where
  admitted_user :
      (x : Session) (o : Option AdminUser)
      → admitted p x o ≡ granted (u, s)
      → (x ≡ s) × (o ≡ some u) × (can_authenticate p.is_bcrypt u ≡ true)
  admitted_user x none e = cc
  admitted_user x (some v) e = elim (Bool-cases (can_authenticate p.is_bcrypt v)) [
    | inl may ↦
        let same : granted (v, x) ≡ granted (u, s) = ground arith in
        let pair = granted_injective same in
        let first = ap (λ (y : AdminUser × Session). y.0) pair in
        (
          ap (λ (y : AdminUser × Session). y.1) pair,
          ap some first,
          subst (λ w. can_authenticate p.is_bcrypt w ≡ true) first may,
        )
    | inr never ↦ ground arith
  ]

  found_active :
      (o : Option (Option Session))
      → found_access p now t o ≡ granted (u, s)
      → (o ≡ some (some s))
        × (access_active now s ≡ true)
        × (user_by_id s.admin_user_id t ≡ some u)
        × (can_authenticate p.is_bcrypt u ≡ true)
  found_active none e = cc
  found_active (some none) e = cc
  found_active (some (some x)) e = elim (Bool-cases (access_active now x)) [
    | inl lives ↦
        let same : admitted p x (user_by_id x.admin_user_id t) ≡ granted (u, s) = ground arith in
        let h = admitted_user x (user_by_id x.admin_user_id t) same in
        (
          ap (λ y. some (some y)) h.0,
          subst (λ y. access_active now y ≡ true) h.0 lives,
          subst (λ (y : Session). user_by_id y.admin_user_id t ≡ some u) h.0 h.1,
          h.2,
        )
    | inr over ↦ ground arith
  ]

find_by_access-some :
    (hash : List ℕ) (t : Tables) (s : Session)
    → find_by_access hash t ≡ some (some s)
    → find (λ (x : Session). text_eq x.access_token_hash hash) t.sessions ≡ some s
unfolding find_by_access
find_by_access-some hash t s e = elim (Bool-cases (is_zero_hash hash)) [
  | inl zeros ↦ ground arith
  | inr real ↦
      let o = find (λ (x : Session). text_eq x.access_token_hash hash) t.sessions in
      let same : some o ≡ some (some s) = ground arith in some_injective same
]

-- What lets a token in.
pub granted_access :
    (p : Primitives) (token : Text) (now : Time) (t : Tables) (u : AdminUser) (s : Session)
    → authenticate_access p token now t ≡ granted (u, s)
    → (find (λ (x : Session). text_eq x.access_token_hash (p.sha256 token)) t.sessions ≡ some s)
      × (access_active now s ≡ true)
      × (user_by_id s.admin_user_id t ≡ some u)
      × (can_authenticate p.is_bcrypt u ≡ true)
unfolding authenticate_access
granted_access p token now t u s e = elim (Bool-cases (is_empty (trim_space token))) [
  | inl blank ↦ ground arith
  | inr named ↦
      let same : found_access p now t (find_by_access (p.sha256 token) t) ≡ granted (u, s) =
        ground arith in
      let h = found_active p now t u s (find_by_access (p.sha256 token) t) same in
      (find_by_access-some (p.sha256 token) t s h.0, h.1, h.2, h.3)
]

pub authenticate_access-Admitted :
    (p : Primitives) (token : Text) (now : Time) (t : Tables) (u : AdminUser) (s : Session)
    → authenticate_access p token now t ≡ granted (u, s)
    → Admitted p token now u s
unfolding authenticate_access
authenticate_access-Admitted p token now t u s e =
    let h = granted_access p token now t u s e in
    let owns = find_holds _ t.sessions s h.0 in
    let user : text_eq u.id (trim_space s.admin_user_id) ≡ true =
      unfold user_by_id in find_holds _ t.users u h.2 in
    let lives = h.1 in
    record {
      owns_token = ground (arith, text_eq_iff s.access_token_hash (p.sha256 token));
      not_revoked = unfold access_active in unfold session_active in ground arith;
      before_expiry = unfold access_active in ground arith;
      session_alive = unfold access_active in unfold session_active in ground arith;
      may_sign_in = h.3;
      same_user = ground (arith, text_eq_iff u.id (trim_space s.admin_user_id));
    }
