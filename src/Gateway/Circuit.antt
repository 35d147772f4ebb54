-- ===== src/Gateway/Circuit.antt =====
-- How often a request tries, when it turns to another account, and the quota circuit (gateway.go).
use grok2api.Prelude.{
  not, ◌&&◌, ltb, ℕ, zero, suc, ◌+◌, ◌<◌, ◌≡◌, ◌≢◌, ◌⊎◌, refl, ap, ◌∙◌, Bool, true, false, Option,
  none, some, arith, ◌==◌, if◌then◌else◌, length, Text, to_lower, Time,
}
use grok2api.Account.{no_reason}
use grok2api.Scheduler.State.{Scheduler}
use grok2api.Scheduler.Status.{earliest_retry}
use grok2api.Upstream.Json.{Fields}
use grok2api.Upstream.Classify.{classify, classify_failure, extract_failure_metadata}
use grok2api.Upstream.Verdict.{auth_status}
use grok2api.Gateway.State.{Gateway, refresh_circuit}
use grok2api.Gateway.Errors.{PoolError, quota_circuit_error, pool_unavailable}
use grok2api.Gateway.Retry.{should_rotate}
use grok2api.Gateway.Request.{
  Round, Response, no_account, Verdict, done, rotate, one_round, proceed, rotate_loop, budget,
  admitted, admit, request,
}

-- A failure turns the request to another account exactly when it has a reason, so the account that
-- is parked is never parked for want of one; every 401, 403 and 429 does.
pub classify_failure-should_rotate :
    (status : ℕ) (body : Text) (parsed : Option Fields)
    → let f = classify_failure status body parsed in
      (should_rotate f ≡ true → f.reason ≢ no_reason)
      × (should_rotate f ≡ false → f.reason ≡ no_reason)
      × ((status ≡ 401) ⊎ ((status ≡ 403) ⊎ (status ≡ 429)) → should_rotate f ≡ true)
unfolding should_rotate classify_failure classify
classify_failure-should_rotate status body parsed = by_text (extract_failure_metadata body parsed)
  where
    by_text :
        (text : Text × Text)
        → let f = classify status text.0 text.1 in
          (should_rotate f ≡ true → f.reason ≢ no_reason)
          × (should_rotate f ≡ false → f.reason ≡ no_reason)
          × ((status ≡ 401) ⊎ ((status ≡ 403) ⊎ (status ≡ 429)) → should_rotate f ≡ true)
    by_text (code, message) = (
      λ h. ground arith,
      λ h. ground arith,
      λ h. ground (arith, auth_status status (to_lower code) (to_lower message)),
    )

-- The attempts that the setting allows.
abbrev most_of : ℕ → ℕ
most_of n = if n == 0 then 3 else n

-- The deadline of a circuit that opens: that of the account that is back first, if any is to come.
abbrev pub opened_until : Time → Gateway → Time
opened_until now g =
    let earliest = earliest_retry 0 g.sched.accounts in
    if not (earliest == 0) && ltb now earliest then earliest else now + g.quota_retry

module _ (parse_time : Text → Option Time) where
  again_cong :
      (f h : ℕ → Gateway → Gateway × Response) (q : ℕ) (r : Gateway × Verdict)
      → ((n : ℕ) (t : Gateway) → f n t ≡ h n t)
      → proceed parse_time f q r ≡ proceed parse_time h q r
  again_cong f h q (g, done r) e = refl
  again_cong f h q (g, rotate true) e = e (q + 1) g
  again_cong f h q (g, rotate false) e = e q g

  rotate_loop_cong :
      (rounds others : ℕ → Round) (end : Time) (key : Text) (stream : Bool)
      (left attempted failures : ℕ) (g : Gateway)
      → ((i : ℕ) → i < attempted + left → rounds i ≡ others i)
      → rotate_loop parse_time rounds end key stream left attempted failures g
        ≡ rotate_loop parse_time others end key stream left attempted failures g
  unfolding rotate_loop
  rotate_loop_cong rounds others end key stream zero attempted failures g same = refl
  rotate_loop_cong rounds others end key stream (suc left) attempted failures g same =
      ap
        (λ r.
          proceed parse_time
            (λ q h. rotate_loop parse_time rounds end key stream left (attempted + 1) q h) failures
            (one_round parse_time r key stream g))
        (same attempted (omega arith))
      ∙ again_cong _ _ failures (one_round parse_time (others attempted) key stream g) (λ q h.
        rotate_loop_cong rounds others end key stream left (attempted + 1) q h
          (λ i p. same i (omega arith)))

  budget_bounds :
      (start : Time) (g : Gateway) (i : ℕ)
      → i < budget parse_time (refresh_circuit start g)
      → (i < length g.sched.ready) × (i < most_of g.max_attempts)
  unfolding refresh_circuit
  budget_bounds start g i h = (ground arith, ground arith)

  -- The answer to a request does not depend on any round from the n-th on, where n is the smaller of
  -- the setting, three when it is not positive, and the number of accounts that are ready when the
  -- request begins: it tries at most that many accounts.
  pub request_attempts :
      (rounds others : ℕ → Round) (start end : Time) (key : Text) (stream : Bool) (g : Gateway)
      → ((i : ℕ) → i < length g.sched.ready → i < most_of g.max_attempts → rounds i ≡ others i)
      → request parse_time rounds start end key stream g
        ≡ request parse_time others start end key stream g
  unfolding request admit
  request_attempts rounds others start end key stream g same =
      by_circuit (quota_circuit_error start (refresh_circuit start g))
    where
      by_circuit :
          (e : Option PoolError)
          → admitted parse_time
              (admit parse_time rounds start end key stream)
              (refresh_circuit start g)
              e
            ≡ admitted parse_time
                (admit parse_time others start end key stream)
                (refresh_circuit start g)
                e
      by_circuit (some e) = refl
      by_circuit none =
          ap
            (λ r.
              if length (refresh_circuit start g).sched.ready == 0
              then (
                refresh_circuit start g,
                no_account (pool_unavailable start (refresh_circuit start g)),
              )
              else r)
            (rotate_loop_cong rounds others end key stream
              (budget parse_time (refresh_circuit start g)) 0 0 (refresh_circuit start g)
              (λ i p. let b = budget_bounds start g i (omega arith) in same i b.0 b.1))
