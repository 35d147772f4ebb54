-- ===== src/Admin/Store/Tables.antt =====
-- The rows of the administrators' tables, and the statements on users. A statement that fails leaves
-- the tables as they were.
use grok2api.Prelude.{
  ℕ, suc, Bool, true, false, ◌||◌, Option, none, some, List, [], ◌∷◌, ◌++◌, length, ◌==◌,
  if◌then◌else◌, Text, trim_space, to_lower, text_eq, Time,
}
use grok2api.Admin.Session.{Session}
use grok2api.Admin.User.{
  AdminUser, UserError, AttemptError, LoginAttempt, normalize_username, validate_user,
}

pub record AttemptRow : Type 0 where
  pub row : ℕ
  pub attempt : LoginAttempt

pub record Reservation : Type 0 where
  pub row : ℕ
  pub username : Text
  pub source_ip : Text
  pub created_at : Time

-- `attempts_made` and `reservations_made` are the last row numbers given out (AUTOINCREMENT).
pub record Tables : Type 0 where
  pub users : List AdminUser
  pub sessions : List Session
  pub attempts : List AttemptRow
  pub reservations : List Reservation
  pub attempts_made : ℕ
  pub reservations_made : ℕ

pub data StoreError : Type 0 where
  bad_user : UserError → StoreError
  bad_attempt : AttemptError → StoreError
  timestamps_required success_required reservation_required reservation_inactive
        pending_attempt_required window_required limit_required failure_code_required
        identity_required hashes_required session_times_required expiry_invalid time_required
        reason_required constraint_failed :
      StoreError

-- The first row that `wanted` holds of: at most one, where it asks for a key.
unfoldable pub find {ℓ} : {A : Type ℓ} → (A → Bool) → List A → Option A
find wanted [] = none
find wanted (x ∷ xs) = if wanted x then some x else find wanted xs

-- `SELECT COUNT(*) … WHERE`
unfoldable pub count {ℓ} : {A : Type ℓ} → (A → Bool) → List A → ℕ
count wanted [] = 0
count wanted (x ∷ xs) = let n = count wanted xs in if wanted x then suc n else n

-- `DELETE … WHERE`
unfoldable pub delete_where {ℓ} : {A : Type ℓ} → (A → Bool) → List A → List A
delete_where gone [] = []
delete_where gone (x ∷ xs) = let rest = delete_where gone xs in if gone x then rest else x ∷ rest

-- `CountAdminUsers`
unfoldable pub count_users : Tables → ℕ
count_users t = length t.users

-- `GetAdminUserByID`
unfoldable pub user_by_id : Text → Tables → Option AdminUser
unfolding find
user_by_id id t = find (λ u. text_eq u.id (trim_space id)) t.users

-- `GetAdminUserByUsername`
unfoldable pub user_by_name : Text → Tables → Option AdminUser
unfolding find
user_by_name name t = find (λ u. text_eq (to_lower u.username) (normalize_username name)) t.users

abbrev pub is_some {ℓ} : {A : Type ℓ} → Option A → Bool
is_some none = false
is_some (some x) = true

abbrev add_user : AdminUser → Tables → Tables × Option StoreError
add_user u t =
    if u.created_at == 0 || u.updated_at == 0
    then (t, some timestamps_required)
    else if is_some (user_by_id u.id t) || is_some (user_by_name u.username t)
    then (t, some constraint_failed)
    else (record t { users = t.users ++ u ∷ [] }, none)

-- `CreateAdminUser`; names are compared without case.
unfoldable pub create_user : (Text → Bool) → AdminUser → Tables → Tables × Option StoreError
unfolding user_by_id user_by_name
create_user is_bcrypt item t =
    let (u, problem) = validate_user is_bcrypt item in
    elim problem [ none ↦ add_user u t | some e ↦ (t, some (bad_user e)) ]
