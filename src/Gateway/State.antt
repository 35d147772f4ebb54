-- ===== src/Gateway/State.antt =====
-- The gateway, its settings and its quota circuit (gateway.go).
use grok2api.Prelude.{
  ℕ, ◌*◌, Bool, false, not, ◌||◌, List, [], ltb, ◌==◌, if◌then◌else◌, Time, Duration, second, hour,
}
use grok2api.Account.{Account}
use grok2api.Scheduler.State.{Scheduler}

-- `CircuitStatus`; `open` is the source's `Open`.
pub record Circuit : Type 0 where
  pub opened : Bool
  pub retry_at : Time
  pub revision : ℕ

-- `store` lists what was saved, the latest first.
pub record Gateway : Type 0 where
  pub sched : Scheduler
  pub store : List Account
  pub quota_retry : Duration
  pub rate_retry : Duration
  pub validating_retry : Duration
  pub max_attempts : ℕ
  pub acquire_timeout : Duration
  pub circuit : Circuit

abbrev closed : Circuit
closed = record { opened = false; retry_at = 0; revision = 0 }

-- `NewGateway` without options
unfoldable pub new_gateway : Scheduler → Gateway
new_gateway s = record {
  sched = s;
  store = [];
  quota_retry = 24 * hour;
  rate_retry = 45 * second;
  validating_retry = 45 * second;
  max_attempts = 3;
  acquire_timeout = 0;
  circuit = closed;
}

-- `ConfigureRuntime`
unfoldable pub configure_runtime : Duration → Duration → Duration → ℕ → Gateway → Gateway
configure_runtime quota_retry rate_retry acquire_timeout max_attempts g = record g {
  quota_retry = if ltb 0 quota_retry then quota_retry else g.quota_retry;
  rate_retry = if ltb 0 rate_retry then rate_retry else g.rate_retry;
  acquire_timeout = if ltb 0 acquire_timeout then acquire_timeout else g.acquire_timeout;
  max_attempts = if ltb 0 max_attempts then max_attempts else g.max_attempts;
}

-- `refreshCircuitLocked`
unfoldable pub refresh_circuit : Time → Gateway → Gateway
refresh_circuit now g =
    if not g.circuit.opened
    then g
    else if not (g.circuit.revision == g.sched.revision) || not (ltb now g.circuit.retry_at)
    then record g { circuit = closed }
    else g

-- `resetCircuit`
unfoldable pub reset_circuit : Gateway → Gateway
reset_circuit g = record g { circuit = closed }
