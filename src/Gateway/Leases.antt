-- ===== src/Gateway/Leases.antt =====
-- Every lease that a request takes is given back, on every path but an open stream: the wait for a lease.
pub mod Rounds
pub mod Whole
use grok2api.Prelude.{
  ℕ, zero, suc, ◌+◌, ◌-◌, ◌≤◌, ◌≡◌, refl, ap, sym, ◌∙◌, Bool, true, false, not, ◌&&◌, Option, none,
  some, List, [], ◌∷◌, arith, ltb, ◌==◌, if◌then◌else◌, length, Text, text_eq, lookup, is_empty,
  trim_space, Time, Bool-cases, inl, inr,
}
use grok2api.Account.{Account, quota}
use grok2api.Scheduler.State.{Scheduler}
use grok2api.Scheduler.Acquire.{
  Lease, Outcome, leased, failed, waits, Wake, woken, Result, ok, err, settle, wait_for, attempt,
  acquire_sticky,
}
use grok2api.Scheduler.Accounting.{load, one_on, granted_on, attempt-load}
use grok2api.Scheduler.Accounting.Writes.{release-load, move_unavailable-load, report_usage-load}
use grok2api.Scheduler.Limits.{HasRoom, attempt-HasRoom}

-- The leases that a result of the wait holds.
abbrev pub got_on : Result → Text → ℕ
got_on (ok l) j = one_on l.account_id j
got_on (err e) j = 0

-- The others give back as many leases as they take while this request waits.
abbrev pub KeepLoad : List Wake → Type 0
KeepLoad [] = Unit {0}
KeepLoad (w ∷ wakes) =
    ((s : Scheduler) (j : Text) → load j (w.meanwhile s) ≡ load j s) × KeepLoad wakes

settle-load :
    (r : Scheduler × Outcome) (j : Text) (n : ℕ)
    → load j r.0 ≡ n + granted_on r.1 j
    → load j (settle r).0 ≡ n + got_on (settle r).1 j
settle-load (t, leased l) j n e = e
settle-load (t, failed x) j n e = e
settle-load (t, waits x) j n e = e

wait_for-load :
    (again : Scheduler → Scheduler × Result) (r : Scheduler × Outcome) (j : Text) (n : ℕ)
    → load j r.0 ≡ n + granted_on r.1 j
    → ((t : Scheduler) → load j t ≡ n → load j (again t).0 ≡ n + got_on (again t).1 j)
    → load j (wait_for again r).0 ≡ n + got_on (wait_for again r).1 j
wait_for-load again (t, leased l) j n e f = e
wait_for-load again (t, failed x) j n e f = e
wait_for-load again (t, waits x) j n e f = f t (omega (arith, e))

pub acquire_sticky-load :
    (wakes : List Wake) (now : Time) (key j : Text) (s : Scheduler) (n : ℕ)
    → KeepLoad wakes
    → load j s ≡ n
    → load j (acquire_sticky wakes now key s).0 ≡ n + got_on (acquire_sticky wakes now key s).1 j
unfolding acquire_sticky
acquire_sticky-load [] now key j s n k e =
    settle-load (attempt now key s) j n (omega (arith, attempt-load now key j s, e))
acquire_sticky-load (w ∷ wakes) now key j s n k e =
    wait_for-load (λ t. acquire_sticky wakes w.at key (woken w t)) (attempt now key s) j n
      (omega (arith, attempt-load now key j s, e))
      (λ t f. acquire_sticky-load wakes w.at key j (woken w t) n k.1 (k.0 t j ∙ f))

-- A lease that is got has not been released.
abbrev pub IsFresh : Result → Type 0
IsFresh (ok l) = l.released ≡ false
IsFresh (err e) = Unit {0}

settle-IsFresh :
    (r : Scheduler × Outcome)
    → ((l : Lease) → r.1 ≡ leased l → l.released ≡ false)
    → IsFresh (settle r).1
settle-IsFresh (t, leased l) f = f l refl
settle-IsFresh (t, failed x) f = tt
settle-IsFresh (t, waits x) f = tt

wait_for-IsFresh :
    (again : Scheduler → Scheduler × Result) (r : Scheduler × Outcome)
    → ((l : Lease) → r.1 ≡ leased l → l.released ≡ false)
    → ((t : Scheduler) → IsFresh (again t).1)
    → IsFresh (wait_for again r).1
wait_for-IsFresh again (t, leased l) f g = f l refl
wait_for-IsFresh again (t, failed x) f g = tt
wait_for-IsFresh again (t, waits x) f g = g t

attempt-fresh :
    (now : Time) (key : Text) (s : Scheduler) (l : Lease)
    → (attempt now key s).1 ≡ leased l
    → l.released ≡ false
attempt-fresh now key s l e =
    let (a, found, pool, room, left, fresh) = attempt-HasRoom now key s l e in fresh

pub acquire_sticky-IsFresh :
    (wakes : List Wake) (now : Time) (key : Text) (s : Scheduler)
    → IsFresh (acquire_sticky wakes now key s).1
unfolding acquire_sticky
acquire_sticky-IsFresh [] now key s = settle-IsFresh (attempt now key s) (attempt-fresh now key s)
acquire_sticky-IsFresh (w ∷ wakes) now key s =
    wait_for-IsFresh (λ t. acquire_sticky wakes w.at key (woken w t)) (attempt now key s)
      (attempt-fresh now key s) (λ t. acquire_sticky-IsFresh wakes w.at key (woken w t))
