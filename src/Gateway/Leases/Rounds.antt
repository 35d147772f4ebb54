-- ===== src/Gateway/Leases/Rounds.antt =====
-- Every lease that a request takes is given back: one round.
use grok2api.Prelude.{
  ℕ, ◌+◌, ◌-◌, ◌≤◌, ◌≡◌, refl, ap, ◌∙◌, Bool, true, false, not, ◌&&◌, Option, arith, ltb,
  if◌then◌else◌, Text, is_empty, trim_space, Time, Bool-cases, inl, inr,
}
use grok2api.Account.{Account, quota}
use grok2api.Scheduler.State.{Scheduler}
use grok2api.Scheduler.Acquire.{Lease}
use grok2api.Scheduler.Lease.{account_of, move_unavailable, report_usage}
use grok2api.Scheduler.Cooldown.{note_failure, note_success}
use grok2api.Scheduler.Accounting.{load, one_on}
use grok2api.Scheduler.Accounting.Writes.{release-load, move_unavailable-load, report_usage-load}
use grok2api.Upstream.Headers.{
  Header, parse_rate_limit_headers, present, exhausted, usage_actual, usage_limit,
}
use grok2api.Upstream.Classify.{Failure, classify_failure}
use grok2api.Gateway.State.{Gateway, reset_circuit}
use grok2api.Gateway.Retry.{is_quota, should_rotate, with_header_usage, park_reason, retry_at_for}
use grok2api.Gateway.Request.{
  Reply, Answer, broken, replies, Round, Response, stream_open, whole_body, transport_failed,
  read_failed, close_failed, save_failed, Verdict, done, rotate, release_lease, or_zero,
  save_account, touch_usage, persist_success_usage, succeed, park_and_rotate, fail, respond,
}

abbrev pub kept_on : Response → Text → ℕ
kept_on (stream_open l status) j = one_on l.account_id j
kept_on _ j = 0

-- The leases that are still held after a round: the one of a stream that is open.
abbrev pub held_on : Verdict → Text → ℕ
held_on (done r) j = kept_on r j
held_on (rotate q) j = 0

save_account-sched :
    (saves : Bool) (a : Account) (g : Gateway) → (save_account saves a g).sched ≡ g.sched
unfolding save_account
save_account-sched true a g = refl
save_account-sched false a g = refl

touch_usage-load :
    (saves : Bool) (now : Time) (l : Lease) (a : Account) (j : Text) (g : Gateway)
    → load j (touch_usage saves now l a g).sched ≡ load j g.sched
unfolding touch_usage
touch_usage-load saves now l a j g = elim (Bool-cases (is_empty a.id)) [
  | inl gone ↦ rw gone refl
  | inr here ↦ rw here (
      ap (load j) (save_account-sched _ _ _)
      ∙ report_usage-load now l a.quota_actual a.quota_limit now j g.sched)
]

if-load :
    (b : Bool) (s t : Scheduler) (j : Text) (n : ℕ)
    → load j s ≡ n
    → load j t ≡ n
    → load j (if b then s else t) ≡ n
if-load true s t j n e f = e
if-load false s t j n e f = f

note_success-load : (id j : Text) (s : Scheduler) → load j (note_success id s) ≡ load j s
unfolding note_success
note_success-load id j s = if-load (is_empty (trim_space id)) s _ j (load j s) refl refl

note_failure-load : (id j : Text) (s : Scheduler) → load j (note_failure id s).0 ≡ load j s
unfolding note_failure
note_failure-load id j s = elim (Bool-cases (is_empty (trim_space id))) [
  | inl blank ↦ rw blank refl
  | inr named ↦ rw named refl
]

persist-load :
    (saves : Bool) (now : Time) (l : Lease) (header : Header) (j : Text) (g : Gateway)
    → load j (persist_success_usage saves now l header g).sched ≡ load j g.sched
unfolding persist_success_usage
persist-load saves now l header j g =
    elim (Bool-cases (present (parse_rate_limit_headers header))) [
      | inl some_counters ↦ rw some_counters (
          ap (load j) (save_account-sched _ _ _)
          ∙ if-load (exhausted (parse_rate_limit_headers header)) _ _ j (load j g.sched)
              (move_unavailable-load now l quota _ _ j _ ∙ used) used)
      | inr no_counters ↦
          rw no_counters (touch_usage-load saves now l (or_zero (account_of l g.sched)) j g)
    ]
  where
    used :
        load j (
          report_usage now l
            (usage_actual (parse_rate_limit_headers header))
            (usage_limit (parse_rate_limit_headers header))
            now
            g.sched)
        ≡ load j g.sched
    used = report_usage-load now l _ _ now j g.sched

succeed-load :
    (saves : Bool) (now : Time) (l : Lease) (id : Text) (header : Header) (j : Text) (g : Gateway)
    → load j (succeed saves now l id header g).sched ≡ load j g.sched
unfolding succeed
succeed-load saves now l id header j g =
    note_success-load id j _ ∙ persist-load saves now l header j g

release_lease-load :
    (l : Lease) (j : Text) (g : Gateway)
    → l.released ≡ false
    → load j (release_lease l g).sched ≡ load j g.sched - one_on l.account_id j
unfolding release_lease
release_lease-load l j g fresh = ground (arith, (release-load l j g.sched).0)

-- What a round leaves of the leases, when it starts with one on the account of `l`.
abbrev pub Settles : Lease → Text → Gateway → Gateway × Verdict → Type 0
Settles l j g (h, v) = load j h.sched ≡ (load j g.sched - one_on l.account_id j) + held_on v j

if-Settles :
    (b : Bool) (l : Lease) (j : Text) (g : Gateway) (x y : Gateway × Verdict)
    → Settles l j g x
    → Settles l j g y
    → Settles l j g (if b then x else y)
if-Settles true l j g x y e f = e
if-Settles false l j g x y e f = f

module _ (parse_time : Text → Option Time) (round : Round) (l : Lease)
    (fresh : l.released ≡ false) where
  -- Giving the lease back with the loads as they were.
  returned :
      (j : Text) (g h : Gateway) (v : Verdict)
      → load j h.sched ≡ load j g.sched
      → held_on v j ≡ 0
      → Settles l j g (release_lease l h, v)
  returned j g h v e z = omega (arith, release_lease-load l j h fresh, e, z)

  park_and_rotate-load :
      (id : Text) (r : Reply) (f : Failure) (j : Text) (g : Gateway)
      → Settles l j g (park_and_rotate parse_time round l id r f g)
  unfolding park_and_rotate
  park_and_rotate-load id r f j g =
      if-Settles round.save_ok l j g _ _
        (returned j g _ (rotate (is_quota f.kind)) (ap (load j) (save_account-sched _ _ _) ∙ parked)
          refl)
        (returned j g _ (done save_failed) parked refl)
    where
      parked :
          load j (
            move_unavailable round.now l
              (park_reason f.reason)
              (retry_at_for parse_time round.now f r.header (note_failure id g.sched).1 g)
              f.code
              (note_failure id g.sched).0)
          ≡ load j g.sched
      parked = move_unavailable-load round.now l _ _ f.code j _ ∙ note_failure-load id j g.sched

  fail-load :
      (id : Text) (r : Reply) (j : Text) (g : Gateway)
      → Settles l j g (fail parse_time round l id r g)
  unfolding fail reset_circuit
  fail-load id r j g =
      if-Settles
        (should_rotate (with_header_usage r.header (classify_failure r.status r.body r.parsed))) l j
        g _ _ (park_and_rotate-load id r _ j g)
        (returned j g g (done (whole_body r.status r.body)) refl refl)

  pub respond-load :
      (stream : Bool) (id : Text) (a : Answer) (j : Text) (g : Gateway)
      → one_on l.account_id j ≤ load j g.sched
      → Settles l j g (respond parse_time round stream l id a g)
  unfolding respond reset_circuit
  respond-load stream id broken j g h = returned j g g (done transport_failed) refl refl
  respond-load stream id (replies r) j g h =
      if-Settles (stream && ltb r.status 400) l j g _ _
        (omega (arith, succeed-load round.save_ok round.now l id r.header j g, h))
        (if-Settles (not r.read_ok) l j g _ _ (returned j g g (done read_failed) refl refl) (
          if-Settles (not r.close_ok) l j g _ _ (returned j g g (done close_failed) refl refl) (
            if-Settles (ltb r.status 400) l j g _ _
              (returned j g _ (done (whole_body r.status r.body))
                (succeed-load round.save_ok round.now l id r.header j g) refl)
              (fail-load id r j g))))
