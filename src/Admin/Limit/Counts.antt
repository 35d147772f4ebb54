-- ===== src/Admin/Limit/Counts.antt =====
-- What the statements on reservations do to the numbers that the limit is compared with.
use grok2api.Prelude.{
  ℕ, suc, ◌+◌, ◌≤◌, ◌≡◌, refl, subst, Bool, true, false, some, some_injective, List, [], ◌∷◌, ◌++◌,
  All, ◌==◌, if◌then◌else◌, Bool-cases, inl, inr, arith, Text, trim_space, Time,
}
use grok2api.Admin.User.{LoginAttempt, normalize_username}
use grok2api.Admin.Store.Times.{stored_lt, stored_lt_across}
use grok2api.Admin.Store.Tables.{Tables, AttemptRow, Reservation, count, delete_where, find}
use grok2api.Admin.Store.Attempts.{
  Who, last_success, counts_failure, counts_pending, recent_failures, used_attempts,
}
use grok2api.Admin.Store.Reservations.{
  add_reservation, drop_reservation, copy_failure, failed_attempt,
}

module _ {ℓ} {A : Type ℓ} where
  pub count-append : (p : A → Bool) (xs ys : List A) → count p (xs ++ ys) ≡ count p xs + count p ys
  unfolding count
  count-append p [] ys = omega arith
  count-append p (x ∷ xs) ys = ground (arith, count-append p xs ys)

  pub count_mono :
      (p q : A → Bool) (xs : List A) → ((x : A) → p x ≡ true → q x ≡ true) → count p xs ≤ count q xs
  unfolding count
  count_mono p q [] h = omega arith
  count_mono p q (x ∷ xs) h = ground (arith, count_mono p q xs h, h x)

  count-delete_where : (p g : A → Bool) (xs : List A) → count p (delete_where g xs) ≤ count p xs
  unfolding count delete_where
  count-delete_where p g [] = omega arith
  count-delete_where p g (x ∷ xs) = ground (arith, count-delete_where p g xs)

  -- The row that is found is one that goes.
  pub found_goes :
      (p g : A → Bool) (xs : List A) (r : A)
      → find g xs ≡ some r
      → (if p r then 1 else 0) + count p (delete_where g xs) ≤ count p xs
  unfolding count delete_where find
  found_goes p g [] r e = cc
  found_goes p g (x ∷ xs) r e = elim (Bool-cases (g x)) [
    | inl here ↦
        let same : some x ≡ some r = ground arith in
        subst (λ y. (if p y then 1 else 0) + count p (delete_where g (x ∷ xs)) ≤ count p (x ∷ xs))
          (some_injective same) (ground (arith, count-delete_where p g xs))
    | inr there ↦ ground (arith, found_goes p g xs r)
  ]

-- A later window has no more in it.
pub used_attempts-later :
    (who : Who) (since earlier : Time) (t : Tables)
    → stored_lt since earlier ≡ false
    → used_attempts who since t ≤ used_attempts who earlier t
unfolding used_attempts recent_failures
used_attempts-later who since earlier t h =
    let after = last_success who t.attempts in
    omega (
      arith,
      count_mono (counts_failure who since after) (counts_failure who earlier after) t.attempts
          (λ r e. ground (arith, stored_lt_across earlier since r.attempt.created_at)),
      count_mono (counts_pending who since) (counts_pending who earlier) t.reservations
          (λ r e. ground (arith, stored_lt_across earlier since r.created_at)),
    )

pub last_success-failure :
    (who : Who) (rows : List AttemptRow) (r : AttemptRow)
    → r.attempt.succeeded ≡ false
    → last_success who (rows ++ r ∷ []) ≡ last_success who rows
unfolding last_success
last_success-failure who [] r e = ground arith
last_success-failure who (x ∷ rows) r e = ground (arith, last_success-failure who rows r e)

-- A reservation adds one for those that it concerns.
pub add_reservation-used :
    (who : Who) (since : Time) (a : LoginAttempt) (t : Tables)
    → used_attempts who since (add_reservation a t)
      ≤ used_attempts who since t
        + (if who (normalize_username a.username) (trim_space a.source_ip) then 1 else 0)
unfolding used_attempts recent_failures count
add_reservation-used who since a t = ground (
  arith,
  count-append (counts_pending who since) t.reservations (
      record {
        row = suc t.reservations_made;
        username = normalize_username a.username;
        source_ip = trim_space a.source_ip;
        created_at = a.created_at;
      }
      ∷ []),
)

pub drop_reservation-used :
    (who : Who) (since : Time) (id : ℕ) (t : Tables)
    → used_attempts who since (drop_reservation id t) ≤ used_attempts who since t
unfolding used_attempts recent_failures drop_reservation
drop_reservation-used who since id t =
    omega (arith, count-delete_where (counts_pending who since) (λ r. r.row == id) t.reservations)

-- An attempt that fails is no more than its reservation was.
pub copy_failure-used :
    (who : Who) (since : Time) (id : ℕ) (code : Text) (r : Reservation) (t : Tables)
    → find (λ r. r.row == id) t.reservations ≡ some r
    → used_attempts who since (drop_reservation id (copy_failure code r t))
      ≤ used_attempts who since t
unfolding used_attempts recent_failures drop_reservation count
copy_failure-used who since id code r t e =
    let x : AttemptRow = record { row = suc t.attempts_made; attempt = failed_attempt code r } in
    let same = last_success-failure who t.attempts x refl in
    let after = last_success who t.attempts in
    let failures = count-append (counts_failure who since after) t.attempts (x ∷ []) in
    let pending = found_goes (counts_pending who since) (λ r. r.row == id) t.reservations r e in
    rw same (ground (arith, failures, pending))

-- The row that is found is the only one that goes, when no other has its number.
delete_where-none {ℓ} :
    {A : Type ℓ} (p g : A → Bool) (xs : List A)
    → count g xs ≡ 0
    → count p (delete_where g xs) ≡ count p xs
unfolding count delete_where
delete_where-none p g [] e = refl
delete_where-none p g (x ∷ xs) e = ground (arith, delete_where-none p g xs)

only_found_goes {ℓ} :
    {A : Type ℓ} (p g : A → Bool) (xs : List A) (r : A)
    → find g xs ≡ some r
    → count g xs ≡ 1
    → (if p r then 1 else 0) + count p (delete_where g xs) ≡ count p xs
unfolding count delete_where find
only_found_goes p g [] r e one = cc
only_found_goes p g (x ∷ xs) r e one = elim (Bool-cases (g x)) [
  | inl here ↦
      let same : some x ≡ some r = ground arith in
      subst (λ y. (if p y then 1 else 0) + count p (delete_where g (x ∷ xs)) ≡ count p (x ∷ xs))
        (some_injective same) (ground (arith, delete_where-none p g xs))
  | inr there ↦ ground (arith, only_found_goes p g xs r)
]

pub count-gone {ℓ} : {A : Type ℓ} (g : A → Bool) (xs : List A) → count g (delete_where g xs) ≡ 0
unfolding count delete_where
count-gone g [] = refl
count-gone g (x ∷ xs) = ground (arith, count-gone g xs)

last_success-bound :
    (who : Who) (n : ℕ) (rows : List AttemptRow)
    → All (λ r. r.row ≤ n) rows
    → last_success who rows ≤ n
unfolding last_success
last_success-bound who n [] h = omega arith
last_success-bound who n (r ∷ rows) h = ground (arith, last_success-bound who n rows h.1, h.0)

-- A failure that is recorded counts as its reservation did: no row is as late as the one that it gets,
-- and no other reservation has its number.
pub failed-used :
    (who : Who) (since : Time) (id : ℕ) (code : Text) (r : Reservation) (t : Tables)
    → All (λ x. x.row ≤ t.attempts_made) t.attempts
    → find (λ r. r.row == id) t.reservations ≡ some r
    → count (λ r. r.row == id) t.reservations ≡ 1
    → used_attempts who since (drop_reservation id (copy_failure code r t))
      ≡ used_attempts who since t
unfolding used_attempts recent_failures drop_reservation count
failed-used who since id code r t rows e one =
    let x : AttemptRow = record { row = suc t.attempts_made; attempt = failed_attempt code r } in
    let same = last_success-failure who t.attempts x refl in
    let after = last_success who t.attempts in
    let bound = last_success-bound who t.attempts_made t.attempts rows in
    let failures = count-append (counts_failure who since after) t.attempts (x ∷ []) in
    let pending =
      only_found_goes (counts_pending who since) (λ r. r.row == id) t.reservations r e one in
    rw same (ground (arith, failures, pending, bound))
