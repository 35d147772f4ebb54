-- ===== src/Device/Lifecycle.antt =====
-- A session that is over holds no device code.
use grok2api.Prelude.{
  ◌≡◌, refl, Bool, true, false, not, ◌||◌, ◌&&◌, Option, none, some, some_injective, subst, List,
  [], ◌∷◌, All, Bool-cases, inl, inr, arith, ltb, ◌==◌, if◌then◌else◌, Text, trim_space, is_empty,
  text_eq, Time,
}
use grok2api.Account.{Account, no_reason}
use grok2api.Device.Session.{
  DeviceStatus, slow_down, pending, failed, expired, cancelled, DeviceSession, get_device, normal,
  normalize_session, write_device, write_normal, update_device,
}
use grok2api.Device.Poll.{
  Around, Verdict, judged, unjudged, PollReply, PollStep, stays, becomes, succeeds, DeviceWorld,
  Polled, not_found, store_failed, finish, finish_with, by_verdict, judge, by_flags, by_reply,
  is_open, poll_step, take_step, poll_found, poll_once, has_succeeded, cancel_found, cancel,
}

-- Nothing is left of the code once the session is over.
abbrev pub Codeless : DeviceSession → Type 0
Codeless s = is_open s.status ≡ false → is_empty (trim_space s.device_code) ≡ true

abbrev StepCodeless : PollStep → Type 0
StepCodeless stays = Unit
StepCodeless (becomes n) = Codeless n
StepCodeless (succeeds n a) = Codeless n

finished :
    (status : DeviceStatus) (e : Text) (now : Time) (s : DeviceSession)
    → Codeless (finish status e now s)
unfolding trim_space is_empty
finished status e now s h = refl

either-Codeless :
    (b : Bool) (x y : PollStep)
    → (b ≡ true → StepCodeless x)
    → (b ≡ false → StepCodeless y)
    → StepCodeless (if b then x else y)
either-Codeless true x y f g = f refl
either-Codeless false x y f g = g refl

finish_with-Codeless :
    (env : Around) (s : DeviceSession) (a : Account) (o : Option Text)
    → StepCodeless (finish_with env s a o)
unfolding trim_space is_empty
finish_with-Codeless env s a (some e) = finished failed e env.now s
finish_with-Codeless env s a none = λ h. refl

by_verdict-Codeless :
    (env : Around) (s : DeviceSession) (a : Account) (v : Verdict)
    → StepCodeless (by_verdict env s a v)
by_verdict-Codeless env s a (unjudged e) = finished failed e env.now s
by_verdict-Codeless env s a (judged why code) = finish_with-Codeless env s _ _

judge-Codeless :
    (env : Around) (s : DeviceSession) (a : Account) (o : Option (Account → Verdict))
    → StepCodeless (judge env s a o)
judge-Codeless env s a none = by_verdict-Codeless env s a (judged no_reason [])
judge-Codeless env s a (some validate) = by_verdict-Codeless env s a (validate a)

by_flags-Codeless :
    (env : Around) (s : DeviceSession) (r : PollReply) → StepCodeless (by_flags env s r)
unfolding trim_space is_empty
by_flags-Codeless env s r =
    either-Codeless r.is_pending _ _ (λ waits h. still_open r.is_slow h)
      (λ no_wait.
        either-Codeless r.is_denied _ _ (λ refused h. refl)
          (λ allowed.
            either-Codeless r.is_expired _ _ (λ late h. refl)
              (λ good. judge-Codeless env s _ env.validator)))
  where
    still_open : {P : Type 0} (b : Bool) → is_open (if b then slow_down else pending) ≡ false → P
    still_open true h = cc
    still_open false h = cc

by_reply-Codeless :
    (env : Around) (s : DeviceSession) (r : PollReply) (o : Option Text)
    → StepCodeless (by_reply env s r o)
by_reply-Codeless env s r none = by_flags-Codeless env s r
by_reply-Codeless env s r (some e) =
    either-Codeless (not r.is_pending && (not r.is_denied && not r.is_expired)) _ _
      (λ broken. finished failed e env.now s) (λ answered. by_flags-Codeless env s r)

poll_step-Codeless : (env : Around) (s : DeviceSession) → StepCodeless (poll_step env s)
unfolding poll_step
poll_step-Codeless env s =
    either-Codeless (not (is_open s.status)) _ _ (λ over. tt)
      (λ going.
        either-Codeless (not (s.expires_at == 0) && not (ltb env.now s.expires_at)) _ _
          (λ late. finished expired s.last_error env.now s)
          (λ early.
            either-Codeless (is_empty (trim_space s.device_code)) _ _ (λ blank h. blank)
              (λ coded. by_reply-Codeless env s (env.reply s) (env.reply s).call_error)))

module _ (takes : Bool) (wall : Time) where
  write_device-Codeless :
      (n : DeviceSession) (ss : List DeviceSession)
      → Codeless n
      → All Codeless ss
      → All Codeless (write_device n ss)
  unfolding write_device
  write_device-Codeless n [] h k = tt
  write_device-Codeless n (s ∷ ss) h k = elim (Bool-cases (text_eq s.id n.id)) [
    | inl same ↦ rw same (h, write_device-Codeless n ss h k.1)
    | inr other ↦ rw other (k.0, write_device-Codeless n ss h k.1)
  ]

  normalize_session-Codeless :
      (n m : DeviceSession) → normalize_session wall n ≡ some m → Codeless n → Codeless m
  unfolding normalize_session
  normalize_session-Codeless n m e h =
      elim (Bool-cases (is_empty (trim_space n.id) || is_empty (trim_space n.client_id))) [
        | inl blank ↦ ground arith
        | inr named ↦
            let t : DeviceSession = normal wall n in
            let same : some t ≡ some m = ground arith in subst Codeless (some_injective same) h
      ]

  write_normal-Codeless :
      (o : Option DeviceSession) (ss : List DeviceSession)
      → ((m : DeviceSession) → o ≡ some m → Codeless m)
      → All Codeless ss
      → All Codeless (write_normal o ss).0
  write_normal-Codeless none ss h k = k
  write_normal-Codeless (some m) ss h k = write_device-Codeless m ss (h m refl) k

  update_device-Codeless :
      (n : DeviceSession) (ss : List DeviceSession)
      → Codeless n
      → All Codeless ss
      → All Codeless (update_device takes wall n ss).0
  unfolding update_device
  update_device-Codeless n ss h k = elim (Bool-cases takes) [
    | inl taken ↦ rw taken (
        write_normal-Codeless (normalize_session wall n) ss
          (λ m e. normalize_session-Codeless n m e h) k)
    | inr shut ↦ rw shut k
  ]

take_step-Codeless :
    (env : Around) (s : DeviceSession) (x : PollStep) (w : DeviceWorld)
    → StepCodeless x
    → All Codeless w.sessions
    → All Codeless (take_step env s x w).0.sessions
take_step-Codeless env s stays w h k = k
take_step-Codeless env s (becomes n) w h k =
    update_device-Codeless env.writes env.now n w.sessions h k
take_step-Codeless env s (succeeds n a) w h k =
    update_device-Codeless env.writes env.now n w.sessions h k

poll_found-Codeless :
    (env : Around) (o : Option DeviceSession) (w : DeviceWorld)
    → All Codeless w.sessions
    → All Codeless (poll_found env o w).0.sessions
poll_found-Codeless env none w k = k
poll_found-Codeless env (some s) w k =
    take_step-Codeless env s (poll_step env s) w (poll_step-Codeless env s) k

cancel_found-Codeless :
    (env : Around) (o : Option DeviceSession) (w : DeviceWorld)
    → All Codeless w.sessions
    → All Codeless (cancel_found env o w).0.sessions
cancel_found-Codeless env none w k = k
cancel_found-Codeless env (some s) w k = elim (Bool-cases (has_succeeded s.status)) [
  | inl done ↦ rw done k
  | inr going ↦ rw going (
      update_device-Codeless env.writes env.now (finish cancelled s.last_error env.now s) w.sessions
        (finished cancelled s.last_error env.now s) k)
]

-- What may be asked of a session, by whatever number of callers: the calls on one session exclude each
-- other.
pub data DeviceAct : Type 0 where
  polls : Around → Text → DeviceAct
  cancels : Around → Text → DeviceAct

unfoldable pub run_acts : List DeviceAct → DeviceWorld → DeviceWorld
unfolding poll_once cancel
run_acts [] w = w
run_acts (polls env id ∷ acts) w = run_acts acts (poll_once env id w).0
run_acts (cancels env id ∷ acts) w = run_acts acts (cancel env id w).0

guarded_found :
    (blank : Bool) (reads : Bool) (w : DeviceWorld) (x : DeviceWorld × Polled)
    → All Codeless w.sessions
    → All Codeless x.0.sessions
    → let r : DeviceWorld × Polled =
        if blank then (w, not_found) else if not reads then (w, store_failed) else x in
      All Codeless r.0.sessions
guarded_found true reads w x k h = k
guarded_found false true w x k h = h
guarded_found false false w x k h = k

-- Whatever polls and cancellations run, with whatever answers of the upstream, the validator, the
-- writer and the store, a session of the store that is over, by whatever way, holds no device code.
pub run_acts-Codeless :
    (acts : List DeviceAct) (w : DeviceWorld)
    → All Codeless w.sessions
    → All Codeless (run_acts acts w).sessions
unfolding run_acts poll_once cancel
run_acts-Codeless [] w k = k
run_acts-Codeless (polls env id ∷ acts) w k = run_acts-Codeless acts _ (
    guarded_found (is_empty (trim_space id)) env.reads w _ k
      (poll_found-Codeless env (get_device (trim_space id) w.sessions) w k))
run_acts-Codeless (cancels env id ∷ acts) w k = run_acts-Codeless acts _ (
    guarded_found (is_empty (trim_space id)) env.reads w _ k
      (cancel_found-Codeless env (get_device (trim_space id) w.sessions) w k))
