-- ===== src/Gateway/Leases/Whole.antt =====
-- Every lease that a request takes is given back: the whole request.
use grok2api.Prelude.{
  ℕ, zero, suc, ◌+◌, ◌≡◌, ap, Bool, true, false, ◌&&◌, Option, none, some, arith, ltb, ◌==◌,
  if◌then◌else◌, length, Text, Time,
}
use grok2api.Scheduler.State.{Scheduler}
use grok2api.Scheduler.Acquire.{Result, ok, err}
use grok2api.Scheduler.Lease.{account_of}
use grok2api.Scheduler.Accounting.{load}
use grok2api.Gateway.Leases.{got_on, KeepLoad, IsFresh, acquire_sticky-load, acquire_sticky-IsFresh}
use grok2api.Gateway.State.{Gateway, refresh_circuit}
use grok2api.Gateway.Errors.{PoolError, quota_circuit_error, open_quota_circuit}
use grok2api.Gateway.Request.{
  Round, Response, Verdict, done, rotate, id_of, with_lease, one_round, proceed, give_up,
  rotate_loop, budget, admitted, admit, request,
}
use grok2api.Gateway.Leases.Rounds.{kept_on, held_on, respond-load}

-- The other requests give back as many leases as they take, during a round.
pub record IsNeutral (round : Round) : Type 0 where
  pub waiting : KeepLoad round.wakes
  pub answering : (s : Scheduler) (j : Text) → load j (round.meanwhile s) ≡ load j s

-- What a run of rounds leaves of the leases.
abbrev Leaves : Text → ℕ → Gateway × Response → Type 0
Leaves j n (h, r) = load j h.sched ≡ n + kept_on r j

if-Leaves :
    (b : Bool) (j : Text) (n : ℕ) (x y : Gateway × Response)
    → Leaves j n x
    → Leaves j n y
    → Leaves j n (if b then x else y)
if-Leaves true j n x y e f = e
if-Leaves false j n x y e f = f

refresh_circuit-sched : (now : Time) (g : Gateway) → (refresh_circuit now g).sched ≡ g.sched
unfolding refresh_circuit
refresh_circuit-sched now g = ground arith

module _ (parse_time : Text → Option Time) where
  with_lease-load :
      (round : Round) (stream : Bool) (s : Scheduler) (r : Result) (j : Text) (n : ℕ) (g : Gateway)
      → ((t : Scheduler) (j : Text) → load j (round.meanwhile t) ≡ load j t)
      → IsFresh r
      → load j s ≡ n + got_on r j
      → let (h, v) = with_lease parse_time round stream s r g in load j h.sched ≡ n + held_on v j
  unfolding with_lease
  with_lease-load round stream s (err x) j n g keep fresh e = e
  with_lease-load round stream s (ok l) j n g keep fresh e = omega (
    arith,
    respond-load parse_time round l fresh stream (id_of (account_of l s))
        (round.upstream (account_of l s)) j (record g { sched = round.meanwhile s })
        (omega (arith, keep s j, e)),
    keep s j,
    e,
  )

  one_round-load :
      (round : Round) (key : Text) (stream : Bool) (j : Text) (n : ℕ) (g : Gateway)
      → IsNeutral round
      → load j g.sched ≡ n
      → let (h, v) = one_round parse_time round key stream g in load j h.sched ≡ n + held_on v j
  unfolding one_round
  one_round-load round key stream j n g k e =
      with_lease-load round stream _ _ j n g k.answering
        (acquire_sticky-IsFresh round.wakes round.now key g.sched)
        (acquire_sticky-load round.wakes round.now key j g.sched n k.waiting e)

  give_up-load :
      (now : Time) (attempted failures : ℕ) (j : Text) (n : ℕ) (g : Gateway)
      → load j g.sched ≡ n
      → Leaves j n (give_up parse_time now attempted failures g)
  unfolding give_up open_quota_circuit
  give_up-load now attempted failures j n g e =
      if-Leaves (ltb 0 attempted && failures == attempted) j n _ _
        (omega (arith, ap (load j) (refresh_circuit-sched now (open_quota_circuit now g)), e))
        (omega (arith, e))

  proceed-load :
      (again : ℕ → Gateway → Gateway × Response) (q : ℕ) (r : Gateway × Verdict) (j : Text) (n : ℕ)
      → load j r.0.sched ≡ n + held_on r.1 j
      → ((q : ℕ) (h : Gateway) → load j h.sched ≡ n → Leaves j n (again q h))
      → Leaves j n (proceed parse_time again q r)
  proceed-load again q (g, done r) j n e f = e
  proceed-load again q (g, rotate true) j n e f = f (q + 1) g (omega (arith, e))
  proceed-load again q (g, rotate false) j n e f = f q g (omega (arith, e))

  rotate_loop-load :
      (rounds : ℕ → Round) (end : Time) (key : Text) (stream : Bool) (left attempted failures : ℕ)
      (j : Text) (n : ℕ) (g : Gateway)
      → ((i : ℕ) → IsNeutral (rounds i))
      → load j g.sched ≡ n
      → Leaves j n (rotate_loop parse_time rounds end key stream left attempted failures g)
  unfolding rotate_loop
  rotate_loop-load rounds end key stream zero attempted failures j n g k e =
      give_up-load end attempted failures j n g e
  rotate_loop-load rounds end key stream (suc left) attempted failures j n g k e =
      proceed-load (λ q h. rotate_loop parse_time rounds end key stream left (attempted + 1) q h)
        failures (one_round parse_time (rounds attempted) key stream g) j n
        (one_round-load (rounds attempted) key stream j n g (k attempted) e)
        (λ q h f. rotate_loop-load rounds end key stream left (attempted + 1) q j n h k f)

  -- However a request ends, in success, failure of the upstream, of a read, of the store, or with no
  -- account, and after however many accounts it tried, it has given back every lease that it took;
  -- only an open stream still holds its one. The other goroutines are taken to give back as many
  -- leases as they take, during each round.
  pub request-load :
      (rounds : ℕ → Round) (start end : Time) (key : Text) (stream : Bool) (j : Text) (g : Gateway)
      → ((i : ℕ) → IsNeutral (rounds i))
      → load j (request parse_time rounds start end key stream g).0.sched
        ≡ load j g.sched + kept_on (request parse_time rounds start end key stream g).1 j
  unfolding request
  request-load rounds start end key stream j g k =
      by_circuit (quota_circuit_error start (refresh_circuit start g))
    where
      same : load j (refresh_circuit start g).sched ≡ load j g.sched
      same = ap (load j) (refresh_circuit-sched start g)

      by_circuit :
          (o : Option PoolError)
          → Leaves j (load j g.sched) (
              admitted parse_time
                (admit parse_time rounds start end key stream)
                (refresh_circuit start g)
                o)
      by_circuit (some e) = omega (arith, same)
      by_circuit none =
          unfold admit in
          if-Leaves (length (refresh_circuit start g).sched.ready == 0) j (load j g.sched) _ _
            (omega (arith, same))
            (rotate_loop-load rounds end key stream (budget parse_time (refresh_circuit start g)) 0
              0 j (load j g.sched) (refresh_circuit start g) k same)
