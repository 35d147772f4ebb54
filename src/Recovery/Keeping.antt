-- ===== src/Recovery/Keeping.antt =====
-- What a whole tick keeps, from what a single write keeps. Every pass writes only accounts that it
-- took from the store's list and that no administrator disabled, under the id that they had.
use grok2api.Prelude.{
  ◌≡◌, refl, Bool, true, false, not, ◌&&◌, ◌||◌, All, List, if◌then◌else◌, arith, Time, Duration,
  leb,
}
use grok2api.Account.{
  Account, Reason, no_reason, quota, auth, cooldown, validating, disabled, is_ready, is_unavailable,
  park_known_exhausted, disable_revoked, mark_unavailable, mark_ready, recover_quota_window,
  quota_exhausted,
}
use grok2api.Recovery.Base.{World, Env, refreshed, listed, save, wait, is_unrecoverable_auth_code}
use grok2api.Recovery.Batch.{reason_is}
use grok2api.Recovery.Isolate.{
  IsolationResult, max_isolate_per_tick, count_saved, isolate_exhausted_one, isolate_auth_one,
  isolate_revoked_account,
}
use grok2api.Recovery.Quota.{QuotaResult, count_recovered, recover_quota_one, quota_due}

-- The account that an administrator disabled is told by its code.
abbrev pub quarantined : Account → Bool
quarantined a =
    is_unavailable a.pool
    && (reason_is a.unavailable_reason disabled
        && not (is_unrecoverable_auth_code a.last_error_code))

-- `P` is kept by a write of an account with `Q`, which the listed ones have, and which every account
-- has that takes the place of one that may be touched.
pub record Kept {κ μ} (env : Env) (Q : Account → Type κ) (P : World → Type μ) : Type (κ ⊔ μ) where
  pub listing : (w : World) → P w → All Q (listed w.store)
  pub saving : (b : Account) (w : World) → Q b → P w → P (save env b w).0
  pub waiting :
      (chosen : List Account) (w : World)
      → All (λ a. Q a × (quarantined a ≡ false)) chosen
      → P w
      → P (wait env chosen w)
  pub moving : (a b : Account) → quarantined a ≡ false → b.id ≡ a.id → Q a → Q b
  pub renewing :
      (a b c : Account)
      → quarantined a ≡ false
      → env.refresh a ≡ refreshed b
      → c.id ≡ b.id
      → Q a
      → Q c

-- Reasons that are not the administrator's.
pub other_reason :
    (r : Reason)
    → (reason_is r quota ≡ true → reason_is r disabled ≡ false)
      × (reason_is r validating ≡ true → reason_is r disabled ≡ false)
      × (reason_is r auth ≡ true → reason_is r disabled ≡ false)
unfolding reason_is
other_reason no_reason = (λ e. refl, λ e. refl, λ e. refl)
other_reason quota = (λ e. refl, λ e. refl, λ e. refl)
other_reason auth = (λ e. refl, λ e. refl, λ e. refl)
other_reason cooldown = (λ e. refl, λ e. refl, λ e. refl)
other_reason validating = (λ e. refl, λ e. refl, λ e. refl)
other_reason disabled = (λ e. cc, λ e. cc, λ e. cc)

module _ {κ μ} {env : Env} {Q : Account → Type κ} {P : World → Type μ} (kept : Kept env Q P) where
  pub if-keeps :
      {R : Type 0} (b : Bool) (x y : World × R)
      → (b ≡ true → P x.0)
      → (b ≡ false → P y.0)
      → P (if b then x else y).0
  if-keeps true x y f g = f refl
  if-keeps false x y f g = g refl

  count_saved-keeps : (r : IsolationResult) (x : World × Bool) → P x.0 → P (count_saved r x).0
  count_saved-keeps r (w, true) p = p
  count_saved-keeps r (w, false) p = p

  parked-untouched : (a : Account) → is_ready a.pool ≡ true → quarantined a ≡ false
  parked-untouched a h = ground arith

  pub isolate_exhausted_one-keeps :
      (now : Time) (d : Duration) (a : Account) (s : World × IsolationResult)
      → Q a
      → P s.0
      → P (isolate_exhausted_one env now d a s).0
  unfolding isolate_exhausted_one park_known_exhausted
  isolate_exhausted_one-keeps now d a (w, r) q p =
      if-keeps (not (is_ready a.pool) || not (quota_exhausted a)) _ _ (λ skip. p)
        (λ spent.
          if-keeps (leb max_isolate_per_tick r.isolated) _ _ (λ full. p)
            (λ room.
              count_saved-keeps r _
                (kept.saving _ w (kept.moving a _ (ground arith) (ground arith) q) p)))

  pub isolate_auth_one-keeps :
      (now : Time) (a : Account) (s : World × IsolationResult)
      → Q a
      → P s.0
      → P (isolate_auth_one env now a s).0
  unfolding isolate_auth_one isolate_revoked_account disable_revoked mark_unavailable
  isolate_auth_one-keeps now a (w, r) q p =
      if-keeps (not (is_unavailable a.pool)) _ _ (λ skip. p)
        (λ out.
          if-keeps
            (reason_is a.unavailable_reason disabled
              && is_unrecoverable_auth_code a.last_error_code)
            _ _ (λ skip. p)
            (λ new.
              if-keeps (not (is_unrecoverable_auth_code a.last_error_code)) _ _ (λ skip. p)
                (λ dead.
                  if-keeps (leb max_isolate_per_tick r.isolated) _ _ (λ full. p)
                    (λ room.
                      count_saved-keeps r _
                        (kept.saving _ w (kept.moving a _ (ground arith) (ground arith) q) p)))))

  count_recovered-keeps : (r : QuotaResult) (x : World × Bool) → P x.0 → P (count_recovered r x).0
  count_recovered-keeps r (w, true) p = p
  count_recovered-keeps r (w, false) p = p

  pub recover_quota_one-keeps :
      (now : Time) (a : Account) (s : World × QuotaResult)
      → Q a × (quota_due now a ≡ true)
      → P s.0
      → P (recover_quota_one env now a s).0
  unfolding recover_quota_one recover_quota_window mark_ready quota_due
  recover_quota_one-keeps now a (w, r) (q, due) p = count_recovered-keeps r _ (
      kept.saving _ w
        (kept.moving a _ (ground (arith, (other_reason a.unavailable_reason).0)) (ground arith) q)
        p)
