-- ===== src/Lib.antt =====
-- grok2api: the account pool, the gateway, the client keys, the administrators and
-- the device flow of the service.
--
-- The service answers API requests with a pool of upstream accounts. A request is authenticated by a
-- client key (Client), takes the quota circuit (Gateway), leases an account from the scheduler
-- (Scheduler), calls the upstream, and has the answer classified (Upstream). A failure of the account
-- parks it (Account) and turns the request to the next one.
--
-- Which file models what:
--   * Account.antt: backend/internal/domain/account/account.go, an operation for each method.
--     `Account.Lifecycle` has an event for each of its methods that changes an account, and the theorems on them.
--   * Scheduler/State, Hot, Select, Status, Acquire, Lease, Manage, Cooldown:
--     backend/internal/scheduler/scheduler.go. The struct is the record `Scheduler`; a method that
--     holds the lock is a function from the state to the new state beside its result; maps are
--     association lists. `attempt` is one pass of `AcquireSticky` under the lock, and `acquire_sticky`
--     the loop with its waits, where a `Wake` says when the request is woken and what the other
--     goroutines did meanwhile. Scheduler/Invariant, Choice, Reach, Accounting, Ledger and Limits are
--     proofs.
--   * Upstream: backend/internal/upstream/classifier.go. Json has the decoder's values, Numbers the
--     integer and pattern readers, Headers the rate-limit counters, Classify the verdict.
--   * Gateway: backend/internal/service/gateway.go. `request` is `Gateway.Request` after its
--     preparation; a `Round` gives what surrounds one round of its loop: the wake-ups, the time, the
--     upstream's answer, what others do to the scheduler while it answers, and whether the store
--     takes the write. Payload has the readers of request paths and bodies, Sticky the keys that tie a
--     session to an account (backend/internal/service/sticky.go). Circuit, Leases, Retry/Bounds and
--     Sticky/Isolation are proofs.
--   * Client: backend/internal/domain/clientkey/clientkey.go and
--     backend/internal/service/client_access.go.
--   * Recovery: backend/internal/runtime/recovery.go. A `World` is the store beside the scheduler,
--     with the accounts for which the refresher or the validator was called; each pass is a function
--     on it, `run_once` a whole tick. An `Env` says what surrounds a pass: whether the store lists
--     and takes a write, what the refresher and the validator answer, and what the other goroutines
--     do to the scheduler meanwhile. The workers of a pass answer into slots of their own before
--     anything is written, so their order does not matter. Walk, Keeping, Renewing, Passes,
--     Quarantine, Oldest, Window and Drain are proofs.
--   * Admin: Session, Rotation and User are backend/internal/domain/adminauth/adminauth.go, the
--     administrators, their refresh sessions and login attempts. Store is
--     backend/internal/infra/persistence/sqlite/adminauth.go: the record `Tables` has the rows of the
--     tables, and each statement is a function on it; Store/Times has the order in which SQL compares
--     stored times. Service is backend/internal/adminauth/service.go, with a `Primitives` for bcrypt,
--     SHA-256 and IP addresses, and a `Draws` for the random bytes of one call. Limit, Admission,
--     Replay, Once and Entry are proofs.
--   * Device: backend/internal/domain/deviceauth/session.go and backend/internal/deviceauth/service.go,
--     with the rows of backend/internal/infra/persistence/sqlite/deviceauth.go. `poll_step` says what a
--     poll comes to, `poll_once` and `cancel` are the calls, and an `Around` has what surrounds a call.
--   * Prelude: shared types, text, maps, clock and integers, and the lemmas on them.
--   * Tests: the theorems at concrete inputs.
--
-- Bounds. Text is a list of code points, in Gateway/Sticky of UTF-8 bytes; times and durations are
-- nanoseconds, natural numbers from the zero time on, so 0 is `IsZero`. Counters of the source that
-- cannot be negative are natural numbers; the revision and the cursor wrap at 2 ^ 64, and the
-- seconds of Retry-After at 64 bits. White space is that of Unicode, case folding that of ASCII. No
-- function takes fuel: the loops run over lists, over the wake-ups of a wait, and over the attempts
-- of a request. A tick of the recovery isolates up to 500 accounts, validates up to 128, and
-- refreshes or returns up to 256 in each of its passes.
--
-- Not modelled: the other SQL statements and failures of the database itself, HTTP and its routing,
-- tracing and audit records, JSON and date decoding (parameters), hashing (a parameter), the
-- administration service and the protocol conversions.
pub mod Prelude
pub mod Account
pub mod Scheduler
pub mod Upstream
pub mod Gateway
pub mod Client
pub mod Admin
pub mod Recovery
pub mod Device
pub mod Tests
