-- ===== src/Admin/Store/Attempts.antt =====
-- The statements on login attempts and on reservations of one: a sign-in reserves an attempt before the
-- password is checked, and then turns it into a failure, a success, or nothing.
use grok2api.Prelude.{
  ℕ, ◌+◌, Bool, not, ◌&&◌, Option, none, some, List, [], ◌∷◌, ltb, ◌==◌, if◌then◌else◌, Text,
  text_eq, Time,
}
use grok2api.Admin.Store.Times.{stored_lt, at_least}
use grok2api.Admin.Store.Tables.{Tables, AttemptRow, Reservation, count}

-- Whose attempts are counted: by name and address, or by address.
abbrev pub Who : Type 0
Who = Text → Text → Bool

abbrev pub by_name_and_ip : Text → Text → Who
by_name_and_ip username ip = λ u i. text_eq u username && text_eq i ip

abbrev pub by_ip : Text → Who
by_ip ip = λ u i. text_eq i ip

abbrev later : ℕ → ℕ → ℕ
later a b = if ltb a b then b else a

-- `COALESCE(MAX(success.id), 0)`
unfoldable pub last_success : Who → List AttemptRow → ℕ
last_success who [] = 0
last_success who (r ∷ rows) =
    let rest = last_success who rows in
    if who r.attempt.username r.attempt.source_ip && r.attempt.succeeded
    then later r.row rest
    else rest

-- A failure in the window, after the row `after`.
abbrev pub counts_failure : Who → Time → ℕ → AttemptRow → Bool
counts_failure who since after r =
    who r.attempt.username r.attempt.source_ip
    && (not r.attempt.succeeded && (at_least r.attempt.created_at since && ltb after r.row))

abbrev pub counts_pending : Who → Time → Reservation → Bool
counts_pending who since r = who r.username r.source_ip && at_least r.created_at since

-- The failures since the last success that fall into the window.
unfoldable pub recent_failures : Who → Time → Tables → ℕ
unfolding last_success count
recent_failures who since t =
    count (counts_failure who since (last_success who t.attempts)) t.attempts

-- What the limit is compared with: the failures and the attempts that are under way.
unfoldable pub used_attempts : Who → Time → Tables → ℕ
unfolding recent_failures count
used_attempts who since t =
    recent_failures who since t + count (counts_pending who since) t.reservations

-- `CountRecentAdminLoginFailures`, and the one by address
unfoldable pub count_recent_failures : Who → Time → Tables → Option ℕ
unfolding recent_failures
count_recent_failures who since t = if since == 0 then none else some (recent_failures who since t)

abbrev earliest : Time → Option Time → Option Time
earliest at none = some at
earliest at (some other) = if stored_lt other at then some other else some at

-- `MIN(failure.created_at)`
unfoldable pub oldest : (AttemptRow → Bool) → List AttemptRow → Option Time
oldest wanted [] = none
oldest wanted (r ∷ rows) =
    let rest = oldest wanted rows in if wanted r then earliest r.attempt.created_at rest else rest

-- `OldestRecentAdminLoginFailure`, and the one by address, which refuses a window that is not set: a
-- sign-in has one by then
unfoldable pub oldest_recent_failure : Who → Time → Tables → Option Time
unfolding oldest last_success
oldest_recent_failure who since t =
    oldest (counts_failure who since (last_success who t.attempts)) t.attempts
