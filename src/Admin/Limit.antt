-- ===== src/Admin/Limit.antt =====
-- The limit on failed sign-ins holds, whatever sign-ins run at the same time.
pub mod Counts
use grok2api.Prelude.{
  ℕ, zero, suc, ◌+◌, ◌≤◌, ◌<◌, ◌≡◌, ◌⊎◌, refl, ap, sym, subst, ◌∙◌, Bool, true, false, not, ◌&&◌,
  ◌||◌, Option, none, some, some_injective, List, [], ◌∷◌, ◌++◌, All, ltb, ◌==◌, if◌then◌else◌,
  Bool-cases, inl, inr, arith, Text, text_eq, text_eq_iff, is_empty, trim_space, Time,
}
use grok2api.Admin.User.{LoginAttempt, AttemptError, normalize_username, validate_attempt}
use grok2api.Admin.Store.Times.{stored_lt, at_least, stored_lt_across}
use grok2api.Admin.Store.Tables.{
  Tables, AttemptRow, Reservation, StoreError, reservation_inactive, bad_attempt, count,
  delete_where, find,
}
use grok2api.Admin.Store.Attempts.{
  Who, by_name_and_ip, by_ip, last_success, counts_failure, counts_pending, recent_failures,
  used_attempts,
}
use grok2api.Admin.Store.Reservations.{
  Reserved, reserve_valid, add_reservation, reserve_attempt, drop_reservation, release_reservation,
  copy_failure, failed_attempt, complete_failure, complete_found, reserve_checked,
}
use grok2api.Admin.Limit.Counts.{
  used_attempts-later, add_reservation-used, drop_reservation-used, copy_failure-used, failed-used,
  count-gone,
}

-- What the statement tests for the one who signs in.
abbrev has_room : LoginAttempt → Time → ℕ → Tables → Bool
has_room a since limit t =
    ltb
      (used_attempts (by_name_and_ip (normalize_username a.username) (trim_space a.source_ip)) since
        t)
      limit
    && ltb (used_attempts (by_ip (trim_space a.source_ip)) since t) limit

-- Whom the test protects.
abbrev Guarded : Who → LoginAttempt → Type 0
Guarded who a =
    (since : Time) (limit : ℕ) (t : Tables)
    → who (normalize_username a.username) (trim_space a.source_ip) ≡ true
    → has_room a since limit t ≡ true
    → used_attempts who since t < limit

by_name_and_ip-Guarded : (u i : Text) (a : LoginAttempt) → Guarded (by_name_and_ip u i) a
by_name_and_ip-Guarded u i a since limit t e h =
    let v = normalize_username a.username in
    let j = trim_space a.source_ip in
    let same_name : v ≡ u = ground (arith, text_eq_iff v u) in
    let same_ip : j ≡ i = ground (arith, text_eq_iff j i) in
    subst (λ u. used_attempts (by_name_and_ip u i) since t < limit) same_name
      (subst (λ i. used_attempts (by_name_and_ip v i) since t < limit) same_ip (ground arith))

by_ip-Guarded : (i : Text) (a : LoginAttempt) → Guarded (by_ip i) a
by_ip-Guarded i a since limit t e h =
    let j = trim_space a.source_ip in
    let same_ip : j ≡ i = ground (arith, text_eq_iff j i) in
    subst (λ i. used_attempts (by_ip i) since t < limit) same_ip (ground arith)

module _ (who : Who) (guarded : (a : LoginAttempt) → Guarded who a) (since : Time) (limit : ℕ) where
  added-within :
      (a : LoginAttempt) (start : Time) (most : ℕ) (t : Tables)
      → stored_lt since start ≡ false
      → most ≤ limit
      → used_attempts who since t ≤ limit
      → has_room a start most t ≡ true
      → used_attempts who since (add_reservation a t) ≤ limit
  added-within a start most t h k within room =
      let concerned = who (normalize_username a.username) (trim_space a.source_ip) in
      let added = add_reservation-used who since a t in
      elim (Bool-cases concerned) [
        | inl mine ↦
            let free = guarded a start most t mine room in
            let window = used_attempts-later who since start t h in ground arith
        | inr other ↦ ground arith
      ]

  reserve_valid-within :
      (a : LoginAttempt) (start : Time) (most : ℕ) (t : Tables)
      → stored_lt since start ≡ false
      → most ≤ limit
      → used_attempts who since t ≤ limit
      → used_attempts who since (reserve_valid a start most t).0 ≤ limit
  unfolding reserve_valid
  reserve_valid-within a start most t h k within =
      let added = added-within a start most t h k within in
      elim (Bool-cases (has_room a start most t)) [
        | inl room ↦ let after = added room in ground arith
        | inr full ↦ ground arith
      ]

  drop_reservation-within :
      (id : ℕ) (t : Tables)
      → used_attempts who since t ≤ limit
      → used_attempts who since (release_reservation id t).0 ≤ limit
  unfolding release_reservation
  drop_reservation-within id t within =
      let less = drop_reservation-used who since id t in ground arith

  complete_found-within :
      (id : ℕ) (code : Text) (o : Option Reservation) (t : Tables)
      → find (λ r. r.row == id) t.reservations ≡ o
      → used_attempts who since t ≤ limit
      → used_attempts who since (complete_found id code o t).0 ≤ limit
  complete_found-within id code none t e within = within
  complete_found-within id code (some r) t e within =
      omega (arith, copy_failure-used who since id code r t e)

  complete_failure-within :
      (id : ℕ) (code : Text) (t : Tables)
      → used_attempts who since t ≤ limit
      → used_attempts who since (complete_failure id code t).0 ≤ limit
  unfolding complete_failure
  complete_failure-within id code t within =
      let o = find (λ r. r.row == id) t.reservations in
      let after = complete_found-within id (trim_space code) o t refl within in ground arith

  reserve_checked-within :
      (x : LoginAttempt × Option AttemptError) (start : Time) (most : ℕ) (t : Tables)
      → stored_lt since start ≡ false
      → most ≤ limit
      → used_attempts who since t ≤ limit
      → used_attempts who since (reserve_checked x start most t).0 ≤ limit
  reserve_checked-within (a, none) start most t h k within =
      reserve_valid-within a start most t h k within
  reserve_checked-within (a, some e) start most t h k within = within

-- What happens to the attempts between two sign-ins that succeed.
pub data LoginOp : Type 0 where
  reserves : LoginAttempt → Time → ℕ → LoginOp
  fails : ℕ → Text → LoginOp
  releases : ℕ → LoginOp

module _ (is_ip : Text → Bool) where
  unfoldable pub apply_login : LoginOp → Tables → Tables
  unfolding reserve_attempt complete_failure release_reservation
  apply_login (reserves item start most) t = (reserve_attempt is_ip item start most t).0
  apply_login (fails id code) t = (complete_failure id code t).0
  apply_login (releases id) t = (release_reservation id t).0

  unfoldable pub apply_logins : List LoginOp → Tables → Tables
  unfolding apply_login
  apply_logins [] t = t
  apply_logins (op ∷ ops) t = apply_logins ops (apply_login op t)

  -- A reservation looks back at least to `since`, and to no more than the limit.
  abbrev pub LooksBack : Time → ℕ → LoginOp → Type 0
  LooksBack since limit (reserves item start most) =
      (stored_lt since start ≡ false) × (most ≤ limit)
  LooksBack since limit (fails id code) = Unit
  LooksBack since limit (releases id) = Unit

  apply_logins-within :
      (who : Who) (since : Time) (limit : ℕ) (ops : List LoginOp) (t : Tables)
      → ((a : LoginAttempt) → Guarded who a)
      → All (LooksBack since limit) ops
      → used_attempts who since t ≤ limit
      → used_attempts who since (apply_logins ops t) ≤ limit
  unfolding apply_logins apply_login reserve_attempt
  apply_logins-within who since limit [] t guarded h within = within
  apply_logins-within who since limit (reserves item start most ∷ ops) t guarded h within =
      apply_logins-within who since limit ops _ guarded h.1 (
        reserve_checked-within who guarded since limit (validate_attempt is_ip item) start most t
          h.0.0 h.0.1 within)
  apply_logins-within who since limit (fails id code ∷ ops) t guarded h within =
      apply_logins-within who since limit ops _ guarded h.1
        (complete_failure-within who guarded since limit id code t within)
  apply_logins-within who since limit (releases id ∷ ops) t guarded h within =
      apply_logins-within who since limit ops _ guarded h.1
        (drop_reservation-within who guarded since limit id t within)

  -- Until somebody signs in, however the reservations, failures and releases of any sign-ins
  -- interleave: while every reservation looks back at least to `since`, neither a name at an address
  -- nor an address gets past the limit with its failures since then and its attempts under way.
  pub apply_logins-limited :
      (username ip : Text) (since : Time) (limit : ℕ) (ops : List LoginOp) (t : Tables)
      → All (LooksBack since limit) ops
      → used_attempts (by_name_and_ip username ip) since t ≤ limit
      → used_attempts (by_ip ip) since t ≤ limit
      → (used_attempts (by_name_and_ip username ip) since (apply_logins ops t) ≤ limit)
        × (used_attempts (by_ip ip) since (apply_logins ops t) ≤ limit)
  apply_logins-limited username ip since limit ops t h named addressed = (
    apply_logins-within (by_name_and_ip username ip) since limit ops t
        (by_name_and_ip-Guarded username ip) h named,
    apply_logins-within (by_ip ip) since limit ops t (by_ip-Guarded ip) h addressed,
  )

complete_found-used :
    (who : Who) (since : Time) (id : ℕ) (code : Text) (o : Option Reservation) (t u : Tables)
    → find (λ r. r.row == id) t.reservations ≡ o
    → complete_found id code o t ≡ (u, none)
    → All (λ r. r.row ≤ t.attempts_made) t.attempts
    → count (λ r. r.row == id) t.reservations ≡ 1
    → (used_attempts who since u ≡ used_attempts who since t)
      × (count (λ r. r.row == id) u.reservations ≡ 0)
complete_found-used who since id code none t u f e rows one =
    let never : some reservation_inactive ≡ none = ap (λ (x : Tables × Option StoreError). x.1) e in
    cc
complete_found-used who since id code (some r) t u f e rows one =
    let same = ap (λ (x : Tables × Option StoreError). x.0) e in
    subst
      (λ (v : Tables).
        (used_attempts who since v ≡ used_attempts who since t)
        × (count (λ r. r.row == id) v.reservations ≡ 0))
      same
      (
        failed-used who since id code r t rows f one,
        unfold drop_reservation in count-gone (λ (r : Reservation). r.row == id) t.reservations,
      )

-- A failure is not forgotten: when an attempt under way is turned into a failure, it counts for
-- everybody and every window as the attempt did. The row numbers are taken to be those that the tables
-- gave out, each to one reservation.
pub complete_failure-used :
    (who : Who) (since : Time) (id : ℕ) (code : Text) (t u : Tables)
    → complete_failure id code t ≡ (u, none)
    → All (λ r. r.row ≤ t.attempts_made) t.attempts
    → count (λ r. r.row == id) t.reservations ≡ 1
    → (used_attempts who since u ≡ used_attempts who since t)
      × (count (λ r. r.row == id) u.reservations ≡ 0)
unfolding complete_failure
complete_failure-used who since id code t u e rows one =
    let o = find (λ r. r.row == id) t.reservations in
    complete_found-used who since id (trim_space code) o t u refl (ground arith) rows one
