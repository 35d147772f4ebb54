-- ===== src/Scheduler/Ledger.antt =====
-- The leases that are out, kept beside the scheduler: `Active` counts exactly them. An account
-- comes from the database, which stores no `Active`.
use mathlib.Core.Option
use grok2api.Prelude.{
  ℕ, ◌+◌, ◌-◌, ◌<◌, ◌≡◌, refl, ap, ◌∙◌, true, Option, none, some, List, [], ◌∷◌, arith,
  if◌then◌else◌, All, Text, text_eq, text_eq_iff, lookup, lookup-insert, lookup-map_values,
  map_values, mem, Time, Bool-cases, inl, inr,
}
use grok2api.Account.{Account, Reason, or_one, recover_cooldown}
use grok2api.Scheduler.State.{
  Scheduler, Accounts, empty, enlist, enlist_all, new, clamp_active, apply_max_active,
}
use grok2api.Scheduler.Acquire.{new_lease, Outcome, leased, failed, waits, attempt}
use grok2api.Scheduler.Lease.{move_unavailable, report_usage, release}
use grok2api.Scheduler.Manage.{active_of, upsert, promote_due, is_nil, promoted}
use grok2api.Scheduler.Accounting.{active_in, load, one_on, granted_on, attempt-load}
use grok2api.Scheduler.Accounting.Writes.{
  release-load, move_unavailable-load, report_usage-load, upsert-load,
}

pub record Ledger : Type 0 where
  pub sched : Scheduler
  pub out : List Text

pub count : Text → List Text → ℕ
count id [] = 0
count id (j ∷ js) = one_on j id + count id js

remove_one : Text → List Text → List Text
remove_one id [] = []
remove_one id (j ∷ js) = if text_eq j id then js else j ∷ remove_one id js

pub data Act : Type 0 where
  requests returns : Text → Act
  moves : Text → Reason → Time → Text → Act
  uses : Text → ℕ → ℕ → Act
  upserts : Account → Act
  promotes : Act
  caps : ℕ → Act

abbrev book : Outcome → List Text → List Text
book (leased l) out = l.account_id ∷ out
book (failed e) out = out
book (waits e) out = out

-- A lease that is not out cannot be returned.
act : Ledger → Time × Act → Ledger
act w (now, requests key) =
    let (t, o) = attempt now key w.sched in record { sched = t; out = book o w.out }
act w (now, returns id) =
    if mem id w.out
    then record { sched = (release (new_lease id) w.sched).1; out = remove_one id w.out }
    else w
act w (now, moves id why retry_at code) = record w {
  sched = move_unavailable now (new_lease id) why retry_at code w.sched;
}
act w (now, uses id actual limit) = record w {
  sched = report_usage now (new_lease id) actual limit now w.sched;
}
act w (now, upserts a) = record w { sched = upsert (record a { active = 0 }) w.sched }
act w (now, promotes) = record w { sched = (promote_due now w.sched).0 }
act w (now, caps n) = record w { sched = apply_max_active n w.sched }

pub act_all : Ledger → List (Time × Act) → Ledger
act_all w [] = w
act_all w (a ∷ acts) = act_all (act w a) acts

abbrev pub Balances : Ledger → Type 0
Balances w = (j : Text) → load j w.sched ≡ count j w.out

count-book :
    (o : Outcome) (j : Text) (out : List Text) → count j (book o out) ≡ granted_on o j + count j out
unfolding count
count-book (leased l) j out = refl
count-book (failed e) j out = omega arith
count-book (waits e) j out = omega arith

count-mem : (id : Text) (out : List Text) → mem id out ≡ true → 0 < count id out
unfolding count mem
count-mem id [] h = cc
count-mem id (k ∷ out) h = ground (arith, count-mem id out)

count-remove_one :
    (id j : Text) (out : List Text)
    → mem id out ≡ true
    → count j (remove_one id out) ≡ count j out - one_on id j
unfolding count remove_one mem
count-remove_one id j [] h = cc
count-remove_one id j (k ∷ out) h = ground (
  arith,
  count-remove_one id j out,
  count-mem id out,
  text_eq_iff k id,
  text_eq_iff k j,
  text_eq_iff id j,
)

mapped-active :
    (f : Account → Account) (j : Text) (m : Accounts)
    → ((a : Account) → (f a).active ≡ a.active)
    → active_in (Option.map f (lookup j m)) ≡ active_in (lookup j m)
mapped-active f j m same = by_option (lookup j m)
  where
    by_option : (o : Option Account) → active_in (Option.map f o) ≡ active_in o
    by_option none = refl
    by_option (some a) = same a

promote_due-load : (now : Time) (j : Text) (s : Scheduler) → load j (promote_due now s).0 ≡ load j s
unfolding promote_due
promote_due-load now j s = elim (Bool-cases (is_nil (promoted now s.accounts))) [
  | inl idle ↦ rw idle moved
  | inr up ↦ rw up moved
]
  where
    f : Account → Account
    f a = (recover_cooldown now now a).0

    moved : active_in (lookup j (map_values f s.accounts)) ≡ load j s
    moved =
        ap active_in (lookup-map_values f j s.accounts)
        ∙ mapped-active f j s.accounts (λ a. unfold recover_cooldown in ground arith)

apply_max_active-load :
    (n : ℕ) (j : Text) (s : Scheduler) → load j (apply_max_active n s) ≡ load j s
unfolding apply_max_active
apply_max_active-load n j s =
    ap active_in (lookup-map_values (clamp_active (or_one n)) j s.accounts)
    ∙ mapped-active (clamp_active (or_one n)) j s.accounts (λ a. ground arith)

active_of_zero : (id j : Text) (m : Accounts) → active_of id m 0 ≡ active_in (lookup id m)
unfolding active_of
active_of_zero id j m = by_option (lookup id m)
  where
    by_option : (o : Option Account) → elim o [ none ↦ 0 | some old ↦ old.active ] ≡ active_in o
    by_option none = refl
    by_option (some a) = refl

new_account-load :
    (a : Account) (j : Text) (s : Scheduler)
    → load j (upsert (record a { active = 0 }) s) ≡ load j s
new_account-load a j s = ground (
  arith,
  upsert-load (record a { active = 0 }) j s,
  text_eq_iff a.id j,
  active_of_zero a.id j s.accounts,
)

act-Balances : (w : Ledger) (a : Time × Act) → Balances w → Balances (act w a)
unfolding act
act-Balances w (now, requests key) b j =
    omega
      (arith, attempt-load now key j w.sched, count-book (attempt now key w.sched).1 j w.out, b j)
act-Balances w (now, returns id) b j = elim (Bool-cases (mem id w.out)) [
  | inl out ↦ rw out (
      omega
        (arith, (release-load (new_lease id) j w.sched).0, count-remove_one id j w.out out, b j))
  | inr unknown ↦ rw unknown (b j)
]
act-Balances w (now, moves id why retry_at code) b j =
    move_unavailable-load now (new_lease id) why retry_at code j w.sched ∙ b j
act-Balances w (now, uses id actual limit) b j =
    report_usage-load now (new_lease id) actual limit now j w.sched ∙ b j
act-Balances w (now, upserts a) b j = new_account-load a j w.sched ∙ b j
act-Balances w (now, promotes) b j = promote_due-load now j w.sched ∙ b j
act-Balances w (now, caps n) b j = apply_max_active-load n j w.sched ∙ b j

act_all-Balances : (w : Ledger) (acts : List (Time × Act)) → Balances w → Balances (act_all w acts)
unfolding act_all
act_all-Balances w [] b = b
act_all-Balances w (a ∷ acts) b = act_all-Balances (act w a) acts (act-Balances w a b)

enlist_all-load :
    (items : List Account) (j : Text) (s : Scheduler)
    → All (λ a. a.active ≡ 0) items
    → load j s ≡ 0
    → load j (enlist_all s items) ≡ 0
unfolding enlist_all enlist
enlist_all-load [] j s z e = e
enlist_all-load (a ∷ rest) j s z e = enlist_all-load rest j _ z.1 (
    ground
      (arith, lookup-insert a.id j (record a { max_active = or_one a.max_active }) s.accounts, z.0))

-- From accounts with no leases out: however requests, returns, parkings, usage reports, updates and promotions interleave, an
-- account's `Active` is the number of leases on it that were handed out and not yet returned.
pub ledger-Balances :
    (accounts : List Account) (acts : List (Time × Act))
    → All (λ a. a.active ≡ 0) accounts
    → Balances (act_all (record { sched = new accounts; out = [] }) acts)
unfolding new count
ledger-Balances accounts acts z =
    act_all-Balances _ acts (λ j. enlist_all-load accounts j empty z (unfold lookup in refl))
