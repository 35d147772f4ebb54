-- ===== src/Recovery/Quarantine.antt =====
-- A tick leaves alone the accounts that an administrator disabled.
use grok2api.Prelude.{
  ℕ, ◌≡◌, ◌≢◌, All-map, All-append, refl, sym, ◌∙◌, true, false, List, [], ◌∷◌, All, map_values,
  insert, Bool-cases, inl, inr, arith, Text, text_eq, Time, Duration,
}
use grok2api.Account.{
  Account, Reason, no_reason, quota, auth, cooldown, validating, disabled, recover_cooldown,
  is_cooldown, mark_ready,
}
use grok2api.Scheduler.State.{Scheduler, Accounts, remove_ready, signal}
use grok2api.Scheduler.Manage.{upsert, promote_due, promoted, is_nil}
use grok2api.Recovery.Base.{World, Env, refreshed, listed, save, wait}
use grok2api.Recovery.Batch.{reason_is}
use grok2api.Recovery.Walk.{walk-keeps}
use grok2api.Recovery.Quota.{save_promoted, recover_due}
use grok2api.Recovery.Keeping.{quarantined, Kept}
use grok2api.Recovery.Passes.{run_once-keeps}
use grok2api.Recovery.Tick.{run_once}

All-insert {ℓ κ} :
    {V : Type ℓ} (P : Text × V → Type κ) (k : Text) (v : V) (m : List (Text × V))
    → P (k, v)
    → All P m
    → All P (insert k v m)
unfolding insert
All-insert P k v [] p h = (p, tt)
All-insert P k v ((j, w) ∷ m) p h = elim (Bool-cases (text_eq j k)) [
  | inl same ↦ rw same (p, h.1)
  | inr other ↦ rw other (h.0, All-insert P k v m p h.1)
]

not_cooling : (r : Reason) → reason_is r disabled ≡ true → is_cooldown r ≡ false
unfolding reason_is
not_cooling no_reason e = refl
not_cooling quota e = refl
not_cooling auth e = refl
not_cooling cooldown e = cc
not_cooling validating e = refl
not_cooling disabled e = refl

-- The timer of the cooldowns does not touch the account.
recover_cooldown-quarantined :
    (now : Time) (a : Account) → quarantined a ≡ true → recover_cooldown now now a ≡ (a, false)
unfolding recover_cooldown
recover_cooldown-quarantined now a h = ground (arith, not_cooling a.unavailable_reason)

recover_cooldown-id : (now : Time) (a : Account) → (recover_cooldown now now a).0.id ≡ a.id
unfolding recover_cooldown mark_ready
recover_cooldown-id now a = ground arith

module _ (id : Text) where
  -- The account, if it is the one of `id`, is quarantined.
  abbrev Safe : Account → Type 0
  Safe a = a.id ≡ id → quarantined a ≡ true

  abbrev SafeAt : Text × Account → Type 0
  SafeAt (k, a) = (k ≡ id → quarantined a ≡ true) × Safe a

  -- Whatever the store and the scheduler have under `id`, or with that id, is quarantined, and neither
  -- the refresher nor the validator was called for an account of that id.
  pub record HoldsOut (w : World) : Type 0 where
    pub stored : All SafeAt w.store
    pub scheduled : All SafeAt w.sched.accounts
    pub unasked : All (λ a. a.id ≢ id) w.asked

  listed-Safe : (m : Accounts) → All SafeAt m → All Safe (listed m)
  unfolding listed
  listed-Safe [] h = tt
  listed-Safe ((k, a) ∷ m) h = (h.0.1, listed-Safe m h.1)

  upsert-accounts :
      (a : Account) (s : Scheduler)
      → Safe a
      → All SafeAt s.accounts
      → All SafeAt (upsert a s).accounts
  unfolding upsert remove_ready signal
  upsert-accounts a s q h = All-insert SafeAt a.id _ s.accounts (q, q) h

  save-HoldsOut :
      (env : Env) (a : Account) (w : World) → Safe a → HoldsOut w → HoldsOut (save env a w).0
  unfolding save
  save-HoldsOut env a w q h = elim (Bool-cases (env.can_save a)) [
    | inl taken ↦ rw taken (record {
      stored = All-insert SafeAt a.id a w.store (q, q) h.stored;
      scheduled = upsert-accounts a w.sched q h.scheduled;
      unasked = h.unasked;
    })
    | inr refused ↦ rw refused h
  ]

  -- What the others do keeps the account out, and a refresh keeps the id of an account.
  pub record KeepsOut (env : Env) : Type 0 where
    pub waiting : (s : Scheduler) → All SafeAt s.accounts → All SafeAt (env.meanwhile s).accounts
    pub same_id : (a b : Account) → env.refresh a ≡ refreshed b → b.id ≡ a.id

  unlike : (a : Account) → Safe a × (quarantined a ≡ false) → a.id ≢ id
  unlike a (q, g) e = let t = q e in cc

  HoldsOut-Kept : (env : Env) → KeepsOut env → Kept env Safe HoldsOut
  HoldsOut-Kept env keep = record {
    listing = λ w h. listed-Safe w.store h.stored;
    saving = λ b w q h. save-HoldsOut env b w q h;
    waiting = λ chosen w q h.
        unfold wait in
        record {
          stored = h.stored;
          scheduled = keep.waiting w.sched h.scheduled;
          unasked = All-append _ w.asked chosen h.unasked (All-map chosen (λ a t. unlike a t) q);
        };
    moving = λ a b g e q f. let t = q (sym e ∙ f) in cc;
    renewing = λ a b c g e f q h. let t = q (sym (keep.same_id a b e) ∙ (sym f ∙ h)) in cc;
  }

  cooled-Safe :
      (now : Time) (a : Account)
      → (a.id ≡ id → quarantined a ≡ true)
      → quarantined a ≡ true
      → quarantined (recover_cooldown now now a).0 ≡ true
  cooled-Safe now a q h = rw (recover_cooldown-quarantined now a h) h

  promoted-Safe : (now : Time) (m : Accounts) → All SafeAt m → All Safe (promoted now m)
  unfolding promoted
  promoted-Safe now [] h = tt
  promoted-Safe now ((k, a) ∷ m) h = elim (Bool-cases (recover_cooldown now now a).1) [
    | inl due ↦ rw due (
      (λ e.
          let t = h.0.1 (sym (recover_cooldown-id now a) ∙ e) in
          let u = recover_cooldown-quarantined now a t in cc),
      promoted-Safe now m h.1,
    )
    | inr early ↦ rw early (promoted-Safe now m h.1)
  ]

  cooled-SafeAt :
      (now : Time) (m : Accounts)
      → All SafeAt m
      → All SafeAt (map_values (λ a. (recover_cooldown now now a).0) m)
  unfolding map_values
  cooled-SafeAt now [] h = tt
  cooled-SafeAt now ((k, a) ∷ m) h = (
    (
      λ e. cooled-Safe now a h.0.1 (h.0.0 e),
      λ e. cooled-Safe now a h.0.1 (h.0.1 (sym (recover_cooldown-id now a) ∙ e)),
    ),
    cooled-SafeAt now m h.1,
  )

  save_promoted-HoldsOut :
      (env : Env) (a : Account) (w : World) → Safe a → HoldsOut w → HoldsOut (save_promoted env a w)
  unfolding save_promoted
  save_promoted-HoldsOut env a w q h = elim (Bool-cases (env.can_save a)) [
    | inl taken ↦ rw taken (record {
      stored = All-insert SafeAt a.id a w.store (q, q) h.stored;
      scheduled = h.scheduled;
      unasked = h.unasked;
    })
    | inr refused ↦ rw refused h
  ]

  promote_due-SafeAt :
      (now : Time) (s : Scheduler)
      → All SafeAt s.accounts
      → All SafeAt (promote_due now s).0.accounts
  unfolding promote_due signal
  promote_due-SafeAt now s h = elim (Bool-cases (is_nil (promoted now s.accounts))) [
    | inl nobody ↦ rw nobody (cooled-SafeAt now s.accounts h)
    | inr somebody ↦ rw somebody (cooled-SafeAt now s.accounts h)
  ]

  recover_due-HoldsOut :
      (env : Env) (now : Time) (w : World) → HoldsOut w → HoldsOut (recover_due env now w)
  unfolding recover_due
  recover_due-HoldsOut env now w h =
      walk-keeps Safe HoldsOut (save_promoted env) (λ a t q u. save_promoted-HoldsOut env a t q u) _
        _ (unfold promote_due in promoted-Safe now w.sched.accounts h.scheduled)
        (record {
          stored = h.stored;
          scheduled = promote_due-SafeAt now w.sched h.scheduled;
          unasked = h.unasked;
        })

  -- Through a whole tick, an account that an administrator disabled stays disabled in the store and in
  -- the scheduler, and no pass calls the refresher or the validator for an account of its id. A refresh is taken to keep the id of its account, and the others to leave the
  -- account disabled while they change the scheduler.
  pub run_once-HoldsOut :
      (envs : ℕ → Env) (now : Time) (quota_retry : Duration) (w : World)
      → ((n : ℕ) → KeepsOut (envs n))
      → HoldsOut w
      → HoldsOut (run_once envs now quota_retry w)
  run_once-HoldsOut envs now quota_retry w keep h =
      run_once-keeps {P = HoldsOut} envs now quota_retry w (λ n. HoldsOut-Kept (envs n) (keep n))
        (recover_due-HoldsOut (envs 0) now) h
