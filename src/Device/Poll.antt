-- ===== src/Device/Poll.antt =====
-- One poll of a session, and its cancellation.
use grok2api.Prelude.{
  ◌+◌, ◌*◌, Bool, true, false, not, ◌&&◌, Option, none, some, List, [], ◌∷◌, ◌++◌, ltb, ◌==◌,
  if◌then◌else◌, Text, codes, trim_space, is_empty, insert, Time, Duration, second,
}
use grok2api.Account.{Account, Reason, no_reason, no_pool, mark_ready, mark_unavailable}
use grok2api.Scheduler.State.{Scheduler, Accounts}
use grok2api.Scheduler.Manage.{upsert}
use grok2api.Device.Session.{
  DeviceStatus, pending, slow_down, expired, denied, cancelled, succeeded, failed, DeviceSession,
  get_device, update_device,
}

-- `DeviceTokenResult` beside the error of the call, if any.
pub record PollReply : Type 0 where
  pub access_token : Text
  pub refresh_token : Text
  pub expires_in : Duration
  pub is_pending : Bool
  pub is_slow : Bool
  pub is_denied : Bool
  pub is_expired : Bool
  pub error : Text
  pub error_description : Text
  pub call_error : Option Text

pub data Verdict : Type 0 where
  judged : Reason → Text → Verdict
  unjudged : Text → Verdict

-- What surrounds a call: the clock, the upstream's answer, the validator and the writer of accounts, if
-- they are there, whether there is a pool, and whether the store reads and takes writes. A writer
-- answers with its error.
pub record Around : Type 0 where
  pub now : Time
  pub reply : DeviceSession → PollReply
  pub validator : Option (Account → Verdict)
  pub writer : Option (Account → Option Text)
  pub has_pool : Bool
  pub reads : Bool
  pub writes : Bool

pub record DeviceWorld : Type 0 where
  pub sessions : List DeviceSession
  pub saved : Accounts
  pub sched : Scheduler

pub data Polled : Type 0 where
  polled : DeviceSession → Polled
  not_found : Polled
  store_failed : Polled

-- What a poll comes to; only the write of a success is checked.
pub data PollStep : Type 0 where
  stays : PollStep
  becomes : DeviceSession → PollStep
  succeeds : DeviceSession → Account → PollStep

-- `first`
unfoldable pub first_text : List Text → Text
first_text [] = []
first_text (t ∷ ts) = if is_empty (trim_space t) then first_text ts else trim_space t

-- A session that is over gives its device code up.
abbrev pub finish : DeviceStatus → Text → Time → DeviceSession → DeviceSession
finish status error now s = record s {
  status = status;
  last_error = error;
  completed_at = now;
  updated_at = now;
  device_code = [];
}

abbrev pub is_open : DeviceStatus → Bool
is_open pending = true
is_open slow_down = true
is_open _ = false

-- The account of the tokens, before it is validated.
abbrev pub account_of : Time → PollReply → DeviceSession → Account
account_of now r s = record {
  id = codes "device-" ++ s.id;
  access_token = r.access_token;
  refresh_token = r.refresh_token;
  expires_at = if r.expires_in == 0 then 0 else now + r.expires_in;
  oidc_issuer = s.issuer;
  oidc_client_id = s.client_id;
  email = [];
  user_id = [];
  team_id = [];
  pool = no_pool;
  unavailable_reason = no_reason;
  retry_at = 0;
  last_error_code = [];
  last_success_at = 0;
  quota_actual = 0;
  quota_limit = 0;
  request_count = 0;
  authentication_fails = 0;
  active = 0;
  max_active = 1;
  priority = 0;
  created_at = now;
  updated_at = now;
}

-- What the writer answers; without one nothing fails.
abbrev pub write_error : Option (Account → Option Text) → Account → Option Text
write_error none a = none
write_error (some write) a = write a

-- The account after its validation.
abbrev pub validated : Time → Reason → Text → Account → Account
validated now no_reason code a = mark_ready now now a
validated now why code a = mark_unavailable now why (now + 45 * second) code now a

-- The validated account is written, and the session succeeds.
abbrev pub finish_with : Around → DeviceSession → Account → Option Text → PollStep
finish_with env s a (some e) = becomes (finish failed e env.now s)
finish_with env s a none =
    succeeds (record (finish succeeded s.last_error env.now s) { account_id = a.id }) a

abbrev pub by_verdict : Around → DeviceSession → Account → Verdict → PollStep
by_verdict env s a (unjudged e) = becomes (finish failed e env.now s)
by_verdict env s a (judged why code) =
    let b = validated env.now why code a in finish_with env s b (write_error env.writer b)

abbrev pub judge : Around → DeviceSession → Account → Option (Account → Verdict) → PollStep
judge env s a none = by_verdict env s a (judged no_reason [])
judge env s a (some validate) = by_verdict env s a (validate a)

abbrev pub by_flags : Around → DeviceSession → PollReply → PollStep
by_flags env s r =
    if r.is_pending
    then becomes (record s {
      status = if r.is_slow then slow_down else pending;
      interval_sec = if r.is_slow then s.interval_sec + 5 else s.interval_sec;
      updated_at = env.now;
    })
    else if r.is_denied
    then becomes (
        finish denied (first_text (r.error_description ∷ r.error ∷ codes "access_denied" ∷ []))
          env.now s)
    else if r.is_expired
    then becomes (
        finish expired (first_text (r.error_description ∷ r.error ∷ codes "expired_token" ∷ []))
          env.now s)
    else judge env s (account_of env.now r s) env.validator

abbrev pub by_reply : Around → DeviceSession → PollReply → Option Text → PollStep
by_reply env s r none = by_flags env s r
by_reply env s r (some e) =
    if not r.is_pending && (not r.is_denied && not r.is_expired)
    then becomes (finish failed e env.now s)
    else by_flags env s r

-- What a poll of the session comes to.
unfoldable pub poll_step : Around → DeviceSession → PollStep
unfolding first_text mark_ready mark_unavailable
poll_step env s =
    let r = env.reply s in
    if not (is_open s.status)
    then stays
    else if not (s.expires_at == 0) && not (ltb env.now s.expires_at)
    then becomes (finish expired s.last_error env.now s)
    else if is_empty (trim_space s.device_code)
    then becomes (record s {
      status = failed;
      last_error = codes "missing device code";
      completed_at = env.now;
      updated_at = env.now;
    })
    else by_reply env s r r.call_error

abbrev pub keep_account : Around → Account → DeviceWorld → DeviceWorld
keep_account env a w = record w {
  saved = has_writer env.writer;
  sched = if env.has_pool then upsert a w.sched else w.sched;
}
  where
    has_writer : Option (Account → Option Text) → Accounts
    has_writer none = w.saved
    has_writer (some write) = insert a.id a w.saved

abbrev pub take_step : Around → DeviceSession → PollStep → DeviceWorld → DeviceWorld × Polled
take_step env s stays w = (w, polled s)
take_step env s (becomes n) w =
    (record w { sessions = (update_device env.writes env.now n w.sessions).0 }, polled n)
take_step env s (succeeds n a) w =
    let u = keep_account env a w in
    let (ss, written) = update_device env.writes env.now n w.sessions in
    (record u { sessions = ss }, if written then polled n else store_failed)

abbrev pub poll_found : Around → Option DeviceSession → DeviceWorld → DeviceWorld × Polled
poll_found env none w = (w, not_found)
poll_found env (some s) w = take_step env s (poll_step env s) w

-- `PollOnce`
unfoldable pub poll_once : Around → Text → DeviceWorld → DeviceWorld × Polled
unfolding poll_step get_device update_device
poll_once env id w =
    if is_empty (trim_space id)
    then (w, not_found)
    else if not env.reads
    then (w, store_failed)
    else poll_found env (get_device (trim_space id) w.sessions) w

abbrev pub has_succeeded : DeviceStatus → Bool
has_succeeded succeeded = true
has_succeeded _ = false

abbrev pub cancel_found : Around → Option DeviceSession → DeviceWorld → DeviceWorld × Polled
cancel_found env none w = (w, not_found)
cancel_found env (some s) w =
    let n = finish cancelled s.last_error env.now s in
    let (ss, written) = update_device env.writes env.now n w.sessions in
    if has_succeeded s.status
    then (w, polled s)
    else (record w { sessions = ss }, if written then polled n else store_failed)

-- `Cancel`
unfoldable pub cancel : Around → Text → DeviceWorld → DeviceWorld × Polled
unfolding get_device update_device
cancel env id w =
    if is_empty (trim_space id)
    then (w, not_found)
    else if not env.reads
    then (w, store_failed)
    else cancel_found env (get_device (trim_space id) w.sessions) w
