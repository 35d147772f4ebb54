-- ===== src/Recovery/Passes.antt =====
-- What the passes of a tick keep.
use grok2api.Prelude.{
  ℕ, ◌≡◌, refl, Bool, true, false, Option, none, some, List, All, All-map, if◌then◌else◌,
  Bool-cases, inl, inr, arith, Time, Duration,
}
use grok2api.Account.{Account}
use grok2api.Recovery.Base.{World, Env, listed, walk, wait}
use grok2api.Recovery.Walk.{walk-keeps, All-candidates, All-batch}
use grok2api.Recovery.Isolate.{isolate_exhausted_ready, isolate_unrecoverable_auth}
use grok2api.Recovery.Quota.{
  recover_quota_batch, recover_quota, quota_batch, quota_due, recover_due,
}
use grok2api.Recovery.Validating.{
  CredentialResult, validating_due, validating_batch, over_batch, recover_validating, is_none,
}
use grok2api.Recovery.Credentials.{
  refresh_expiring_one, refresh_expiring, expiring, expiring_batch, Sorting, recover_credential_one,
  recover_sorted, recover_credentials,
}
use grok2api.Recovery.Tick.{run_once, proactive_refresh_lead}
use grok2api.Recovery.Keeping.{
  quarantined, Kept, other_reason, isolate_exhausted_one-keeps, isolate_auth_one-keeps,
  recover_quota_one-keeps,
}
use grok2api.Recovery.Renewing.{
  Sorted, recover_validating_one-keeps, refresh_done-keeps, credential_done-keeps,
  sort_out_one-keeps,
}

validating_due-untouched :
    (now : Time) (a : Account) → validating_due now a ≡ true → quarantined a ≡ false
unfolding validating_due
validating_due-untouched now a due = ground (arith, (other_reason a.unavailable_reason).1)

expiring-untouched :
    (deadline : Time) (a : Account) → expiring deadline a ≡ true → quarantined a ≡ false
unfolding expiring
expiring-untouched deadline a due = ground arith

module _ {κ μ} {env : Env} {Q : Account → Type κ} {P : World → Type μ} (kept : Kept env Q P) where
  listing-keeps :
      {R : Type 0} (b : Bool) (w : World) (x : World × R)
      → P w
      → P x.0
      → P (if◌then◌else◌ {A = World × Option R} b (x.0, some x.1) (w, none)).0
  listing-keeps true w x p q = q
  listing-keeps false w x p q = p

  isolate_exhausted_ready-keeps :
      (now : Time) (d : Duration) (w : World) → P w → P (isolate_exhausted_ready env now d w).0
  unfolding isolate_exhausted_ready
  isolate_exhausted_ready-keeps now d w p = listing-keeps env.can_list w _ p (
      walk-keeps Q (λ s. P s.0) _ (λ a s q h. isolate_exhausted_one-keeps kept now _ a s q h)
        (listed w.store) _ (kept.listing w p) p)

  isolate_unrecoverable_auth-keeps :
      (now : Time) (w : World) → P w → P (isolate_unrecoverable_auth env now w).0
  unfolding isolate_unrecoverable_auth
  isolate_unrecoverable_auth-keeps now w p = listing-keeps env.can_list w _ p (
      walk-keeps Q (λ s. P s.0) _ (λ a s q h. isolate_auth_one-keeps kept now a s q h)
        (listed w.store) _ (kept.listing w p) p)

  recover_quota-keeps : (now : Time) (w : World) → P w → P (recover_quota env now w).0
  unfolding recover_quota recover_quota_batch quota_batch
  recover_quota-keeps now w p = listing-keeps env.can_list w _ p (
      walk-keeps (λ a. Q a × (quota_due now a ≡ true)) (λ s. P s.0) _
        (λ a s q h. recover_quota_one-keeps kept now a s q h) _ _
        (All-batch _ _ _ _ (All-candidates (quota_due now) Q (listed w.store) (kept.listing w p)))
        p)

  over_batch-keeps :
      (R : Account → Type κ) (body : Account → World × CredentialResult → World × CredentialResult)
      (b : List Account × ℕ) (w : World)
      → ((a : Account) (s : World × CredentialResult) → R a → P s.0 → P (body a s).0)
      → ((a : Account) → R a → Q a × (quarantined a ≡ false))
      → All R b.0
      → P w
      → P (over_batch env body b w).0
  unfolding over_batch
  over_batch-keeps R body (chosen, skipped) w keep touched q p =
      elim (Bool-cases (is_none chosen)) [
        | inl nobody ↦ rw nobody p
        | inr somebody ↦ rw somebody (
            walk-keeps R (λ s. P s.0) body keep chosen _ q
              (kept.waiting chosen w (All-map chosen touched q) p))
      ]

  recover_validating-keeps : (now : Time) (w : World) → P w → P (recover_validating env now w).0
  unfolding recover_validating validating_batch
  recover_validating-keeps now w p = listing-keeps env.can_list w _ p (
      over_batch-keeps (λ a. Q a × (validating_due now a ≡ true)) _ _ w
        (λ a s q h. recover_validating_one-keeps kept now a s q h)
        (λ a q. (q.0, validating_due-untouched now a q.1))
        (All-batch _ _ _ _
          (All-candidates (validating_due now) Q (listed w.store) (kept.listing w p)))
        p)

  refresh_expiring_one-keeps :
      (now deadline : Time) (a : Account) (s : World × CredentialResult)
      → Q a × (expiring deadline a ≡ true)
      → P s.0
      → P (refresh_expiring_one env now a s).0
  unfolding refresh_expiring_one expiring
  refresh_expiring_one-keeps now deadline a s (q, due) p =
      refresh_done-keeps kept now a s (env.refresh a) refl (ground arith) q p

  refresh_expiring-keeps :
      (now : Time) (lead : Duration) (w : World) → P w → P (refresh_expiring env now lead w).0
  unfolding refresh_expiring expiring_batch
  refresh_expiring-keeps now lead w p = listing-keeps env.can_list w _ p (
      over_batch-keeps (λ a. Q a × (expiring _ a ≡ true)) _ _ w
        (λ a s q h. refresh_expiring_one-keeps now _ a s q h)
        (λ a q. (q.0, expiring-untouched _ a q.1))
        (All-batch _ _ _ _ (All-candidates (expiring _) Q (listed w.store) (kept.listing w p))) p)

  recover_sorted-keeps : (now : Time) (s : Sorting) → Sorted kept s → P (recover_sorted env now s).0
  unfolding recover_sorted recover_credential_one
  recover_sorted-keeps now s k = over_sorted _ (All-batch _ _ _ (s.found, s.result.skipped) k.found)
    where
      over_sorted :
          (b : List Account × ℕ)
          → All (λ a. Q a × (quarantined a ≡ false)) b.0
          → P
              (if◌then◌else◌ {A = World × CredentialResult}
                (is_none b.0)
                (s.world, record s.result { skipped = b.1 })
                (walk
                  (recover_credential_one env now)
                  b.0
                  (wait env b.0 s.world, record s.result { skipped = b.1 }))).0
      over_sorted (chosen, skipped) q = elim (Bool-cases (is_none chosen)) [
        | inl nobody ↦ rw nobody k.world
        | inr somebody ↦ rw somebody (
            walk-keeps (λ a. Q a × (quarantined a ≡ false)) (λ t. P t.0) _
              (λ a t q h. credential_done-keeps kept now a t (env.refresh a) refl q.1 q.0 h) chosen
              _ q (kept.waiting chosen s.world q k.world))
      ]

  recover_credentials-keeps : (now : Time) (w : World) → P w → P (recover_credentials env now w).0
  unfolding recover_credentials
  recover_credentials-keeps now w p = listing-keeps env.can_list w _ p (
      recover_sorted-keeps now _ (
        walk-keeps Q (Sorted kept) _ (λ a s q h. sort_out_one-keeps kept now a s q h)
          (listed w.store) _ (kept.listing w p) (record { world = p; found = tt })))

-- A whole tick keeps what each write and the promotion of cooldowns keep.
pub run_once-keeps {κ μ} :
    {Q : Account → Type κ} {P : World → Type μ} (envs : ℕ → Env) (now : Time)
    (quota_retry : Duration) (w : World)
    → ((n : ℕ) → Kept (envs n) Q P)
    → ((v : World) → P v → P (recover_due (envs 0) now v))
    → P w
    → P (run_once envs now quota_retry w)
unfolding run_once
run_once-keeps envs now quota_retry w kept promotes p = recover_quota-keeps (kept 7) now _ (
    recover_credentials-keeps (kept 6) now _ (
      refresh_expiring-keeps (kept 5) now proactive_refresh_lead _ (
        recover_validating-keeps (kept 4) now _ (
          recover_quota-keeps (kept 3) now _ (
            isolate_exhausted_ready-keeps (kept 2) now quota_retry _
              (isolate_unrecoverable_auth-keeps (kept 1) now _ (promotes w p)))))))
