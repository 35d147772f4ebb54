-- ===== src/Gateway/Request.antt =====
-- `Request` of gateway.go: the rounds of one client request. What the upstream answers, whether the
-- store takes a write, the clock and the other goroutines are a `Round`'s.
use grok2api.Prelude.{
  ℕ, zero, suc, ◌+◌, Bool, true, false, not, ◌&&◌, ◌||◌, Option, none, some, List, ◌∷◌, ltb, ◌==◌,
  if◌then◌else◌, length, Text, codes, is_empty, Time,
}
use grok2api.Account.{Account, no_pool, no_reason, quota, set_quota}
use grok2api.Scheduler.State.{Scheduler}
use grok2api.Scheduler.Acquire.{Lease, Wake, Result, ok, err, acquire_sticky}
use grok2api.Scheduler.Lease.{account_of, move_unavailable, report_usage, release}
use grok2api.Scheduler.Cooldown.{note_failure, note_success}
use grok2api.Upstream.Json.{Fields}
use grok2api.Upstream.Headers.{
  Header, parse_rate_limit_headers, present, usage_actual, usage_limit, exhausted,
}
use grok2api.Upstream.Classify.{Failure, classify_failure}
use grok2api.Gateway.State.{Gateway, refresh_circuit, reset_circuit}
use grok2api.Gateway.Errors.{
  PoolError, map_selection_error, pool_unavailable, quota_circuit_error, open_quota_circuit,
}
use grok2api.Gateway.Retry.{is_quota, should_rotate, with_header_usage, retry_at_for, park_reason}

-- An HTTP response; `parsed` is the decoder's view of the body.
pub record Reply : Type 0 where
  pub status : ℕ
  pub header : Header
  pub body : Text
  pub parsed : Option Fields
  pub read_ok : Bool
  pub close_ok : Bool

pub data Answer : Type 0 where
  broken : Answer
  replies : Reply → Answer

-- What surrounds one round: the wake-ups of the wait for a lease, the time, the upstream, what the
-- others do to the scheduler while it answers, and whether the store takes the write.
pub record Round : Type 0 where
  pub wakes : List Wake
  pub now : Time
  pub upstream : Option Account → Answer
  pub meanwhile : Scheduler → Scheduler
  pub save_ok : Bool

pub data Response : Type 0 where
  stream_open : Lease → ℕ → Response
  whole_body : ℕ → Text → Response
  transport_failed read_failed close_failed save_failed : Response
  no_account : PoolError → Response

pub data Verdict : Type 0 where
  done : Response → Verdict
  rotate : Bool → Verdict

unfoldable pub release_lease : Lease → Gateway → Gateway
release_lease l g = record g { sched = (release l g.sched).1 }

-- `Lease.Account`, which gives the zero account for one that is gone.
abbrev zero_account : Account
zero_account = record {
  id = codes "";
  access_token = codes "";
  refresh_token = codes "";
  expires_at = 0;
  oidc_issuer = codes "";
  oidc_client_id = codes "";
  email = codes "";
  user_id = codes "";
  team_id = codes "";
  pool = no_pool;
  unavailable_reason = no_reason;
  retry_at = 0;
  last_error_code = codes "";
  last_success_at = 0;
  quota_actual = 0;
  quota_limit = 0;
  request_count = 0;
  authentication_fails = 0;
  active = 0;
  max_active = 0;
  priority = 0;
  created_at = 0;
  updated_at = 0;
}

abbrev pub or_zero : Option Account → Account
or_zero none = zero_account
or_zero (some a) = a

-- `SaveAccount`; a write that fails leaves the store as it was.
unfoldable pub save_account : Bool → Account → Gateway → Gateway
save_account saves a g = if saves then record g { store = a ∷ g.store } else g

unfoldable pub id_of : Option Account → Text
id_of none = codes ""
id_of (some a) = a.id

-- `persistSuccessUsage` with no counters in the headers
unfoldable pub touch_usage : Bool → Time → Lease → Account → Gateway → Gateway
touch_usage saves now l a g =
    let s = report_usage now l a.quota_actual a.quota_limit now g.sched in
    if is_empty a.id
    then g
    else save_account saves (or_zero (account_of l s)) (record g { sched = s })

-- `persistSuccessUsage`, whose error the callers drop
unfoldable pub persist_success_usage : Bool → Time → Lease → Header → Gateway → Gateway
unfolding touch_usage save_account
persist_success_usage saves now l header g =
    let usage = parse_rate_limit_headers header in
    let used = report_usage now l (usage_actual usage) (usage_limit usage) now g.sched in
    let s =
      if exhausted usage
      then move_unavailable now l quota (now + g.quota_retry)
          (codes "subscription:free-usage-exhausted") used
      else used in
    if present usage
    then save_account saves (or_zero (account_of l s)) (record g { sched = s })
    else touch_usage saves now l (or_zero (account_of l g.sched)) g

unfoldable pub succeed : Bool → Time → Lease → Text → Header → Gateway → Gateway
succeed saves now l id header g =
    let h = persist_success_usage saves now l header g in
    record h { sched = note_success id h.sched }

-- The account that is saved after it was parked.
unfoldable pub with_counters : Failure → Account → Account
with_counters f a =
    if ltb 0 f.quota_limit || ltb 0 f.quota_actual
    then set_quota f.quota_actual f.quota_limit a
    else a

module _ (parse_time : Text → Option Time) where
  -- The account is parked, saved and given back.
  unfoldable pub park_and_rotate :
      Round → Lease → Text → Reply → Failure → Gateway → Gateway × Verdict
  park_and_rotate round l id r f g =
      let (noted, streak) = note_failure id g.sched in
      let retry_at = retry_at_for parse_time round.now f r.header streak g in
      let s = move_unavailable round.now l (park_reason f.reason) retry_at f.code noted in
      let parked = record g { sched = s } in
      if round.save_ok
      then (
        release_lease l (save_account true (with_counters f (or_zero (account_of l s))) parked),
        rotate (is_quota f.kind),
      )
      else (release_lease l parked, done save_failed)

  unfoldable pub fail : Round → Lease → Text → Reply → Gateway → Gateway × Verdict
  unfolding park_and_rotate
  fail round l id r g =
      let f = with_header_usage r.header (classify_failure r.status r.body r.parsed) in
      if should_rotate f
      then park_and_rotate round l id r f g
      else (reset_circuit (release_lease l g), done (whole_body r.status r.body))

  unfoldable pub respond : Round → Bool → Lease → Text → Answer → Gateway → Gateway × Verdict
  unfolding fail succeed
  respond round stream l id broken g = (reset_circuit (release_lease l g), done transport_failed)
  respond round stream l id (replies r) g =
      if stream && ltb r.status 400
      then (
        reset_circuit (succeed round.save_ok round.now l id r.header g),
        done (stream_open l r.status),
      )
      else if not r.read_ok
      then (release_lease l g, done read_failed)
      else if not r.close_ok
      then (release_lease l g, done close_failed)
      else if ltb r.status 400
      then (
        reset_circuit (release_lease l (succeed round.save_ok round.now l id r.header g)),
        done (whole_body r.status r.body),
      )
      else fail round l id r g

  unfoldable pub with_lease : Round → Bool → Scheduler → Result → Gateway → Gateway × Verdict
  unfolding respond
  with_lease round stream s (err e) g =
      (record g { sched = s }, done (no_account (map_selection_error e)))
  with_lease round stream s (ok l) g =
      let a = account_of l s in
      respond round stream l (id_of a) (round.upstream a) (record g { sched = round.meanwhile s })

  -- One round of the loop.
  unfoldable pub one_round : Round → Text → Bool → Gateway → Gateway × Verdict
  unfolding with_lease
  one_round round key stream g =
      let (s, r) = acquire_sticky round.wakes round.now key g.sched in with_lease round stream s r g

  abbrev or_pool : Time → Gateway → Option PoolError → PoolError
  or_pool now g (some e) = e
  or_pool now g none = pool_unavailable now g

  -- After the loop: the circuit opens when every attempt failed by quota.
  unfoldable pub give_up : Time → ℕ → ℕ → Gateway → Gateway × Response
  give_up now attempted quota_failures g =
      let h = refresh_circuit now (open_quota_circuit now g) in
      if ltb 0 attempted && quota_failures == attempted
      then (h, no_account (or_pool now h (quota_circuit_error now h)))
      else (g, no_account (pool_unavailable now g))

  abbrev pub proceed :
      (ℕ → Gateway → Gateway × Response) → ℕ → Gateway × Verdict → Gateway × Response
  proceed again quota_failures (g, done r) = (g, r)
  proceed again quota_failures (g, rotate true) = again (quota_failures + 1) g
  proceed again quota_failures (g, rotate false) = again quota_failures g

  -- The loop over the attempts that are left; `rounds` is read from the number of the attempt.
  unfoldable pub rotate_loop :
      (ℕ → Round) → Time → Text → Bool → ℕ → ℕ → ℕ → Gateway → Gateway × Response
  unfolding one_round give_up
  rotate_loop rounds end key stream zero attempted quota_failures g =
      give_up end attempted quota_failures g
  rotate_loop rounds end key stream (suc left) attempted quota_failures g =
      proceed (λ q h. rotate_loop rounds end key stream left (attempted + 1) q h) quota_failures
        (one_round (rounds attempted) key stream g)

  abbrev pub budget : Gateway → ℕ
  budget g =
      let most : ℕ = if g.max_attempts == 0 then 3 else g.max_attempts in
      if ltb (length g.sched.ready) most then length g.sched.ready else most

  abbrev pub admitted :
      (Gateway → Gateway × Response) → Gateway → Option PoolError → Gateway × Response
  admitted go g (some e) = (g, no_account e)
  admitted go g none = go g

  unfoldable pub admit : (ℕ → Round) → Time → Time → Text → Bool → Gateway → Gateway × Response
  admit rounds start end key stream g =
      if length g.sched.ready == 0
      then (g, no_account (pool_unavailable start g))
      else rotate_loop rounds end key stream (budget g) 0 0 g

  -- `Request`, from `start` on; the loop ends at `end`.
  unfoldable pub request : (ℕ → Round) → Time → Time → Text → Bool → Gateway → Gateway × Response
  unfolding admit
  request rounds start end key stream g =
      let fresh = refresh_circuit start g in
      admitted (admit rounds start end key stream) fresh (quota_circuit_error start fresh)
