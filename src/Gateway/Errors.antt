-- ===== src/Gateway/Errors.antt =====
-- The error that a client gets when no account can serve (gateway.go, `PoolUnavailableError`).
use grok2api.Prelude.{
  ℕ, ◌+◌, ◌*◌, true, not, ◌&&◌, Option, none, some, ltb, ◌==◌, if◌then◌else◌, Time, Duration,
  second, sub_time,
}
use grok2api.Account.{quota, cooldown, auth, validating}
use grok2api.Scheduler.Status.{
  SelectionReason, no_ready, saturated, by_quota, cooling, by_auth, by_validation, SelectionError,
  count_reason, earliest_retry,
}
use grok2api.Gateway.State.{Gateway}

pub data PoolReason : Type 0 where
  pool_empty pool_saturated pool_quota pool_cooling pool_auth pool_validating pool_circuit :
      PoolReason

pub record PoolError : Type 0 where
  pub status : ℕ
  pub retry_after : Duration
  pub reason : PoolReason

abbrev too_many_requests : ℕ
too_many_requests = 429

abbrev service_unavailable : ℕ
service_unavailable = 503

abbrev pub at_least_second : Duration → Duration
at_least_second d = if ltb d second then second else d

unfoldable map_reason : SelectionReason → PoolReason
map_reason no_ready = pool_empty
map_reason saturated = pool_saturated
map_reason by_quota = pool_quota
map_reason cooling = pool_cooling
map_reason by_auth = pool_auth
map_reason by_validation = pool_validating

unfoldable status_of : PoolReason → ℕ
status_of pool_quota = too_many_requests
status_of pool_circuit = too_many_requests
status_of _ = service_unavailable

unfoldable selection_retry : SelectionReason → Duration → Duration
selection_retry saturated d = if ltb d (5 * second) then second else d
selection_retry _ d = d

-- `mapSelectionError`
unfoldable pub map_selection_error : SelectionError → PoolError
unfolding map_reason status_of selection_retry
map_selection_error sel = record {
  status = status_of (map_reason sel.reason);
  retry_after = selection_retry sel.reason (at_least_second sel.retry_after);
  reason = map_reason sel.reason;
}

-- The reason that is inferred from the counts.
unfoldable inferred : ℕ → ℕ → ℕ → ℕ → PoolReason
inferred q c a v =
    if ltb 0 q
    then pool_quota
    else if ltb 0 c
    then pool_cooling
    else if ltb 0 a
    then pool_auth
    else if ltb 0 v
    then pool_validating
    else pool_empty

-- `poolUnavailable`
unfoldable pub pool_unavailable : Time → Gateway → PoolError
unfolding inferred status_of
pool_unavailable now g =
    let m = g.sched.accounts in
    let earliest = earliest_retry 0 m in
    let reason =
      inferred (count_reason quota m) (count_reason cooldown m) (count_reason auth m)
        (count_reason validating m) in
    record {
      status = status_of reason;
      retry_after =
          if earliest == 0 then g.quota_retry else at_least_second (sub_time earliest now);
      reason = reason;
    }

-- `quotaCircuitError`, on the circuit as it was refreshed
unfoldable pub quota_circuit_error : Time → Gateway → Option PoolError
unfolding status_of
quota_circuit_error now g =
    if not g.circuit.opened
    then none
    else some (record {
      status = too_many_requests;
      retry_after = at_least_second (sub_time g.circuit.retry_at now);
      reason = pool_circuit;
    })

-- `openQuotaCircuit`
unfoldable pub open_quota_circuit : Time → Gateway → Gateway
open_quota_circuit now g =
    let earliest = earliest_retry 0 g.sched.accounts in
    record g {
      circuit = record {
        opened = true;
        retry_at =
            if not (earliest == 0) && ltb now earliest then earliest else now + g.quota_retry;
        revision = g.sched.revision;
      };
    }
