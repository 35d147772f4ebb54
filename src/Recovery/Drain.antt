-- ===== src/Recovery/Drain.antt =====
-- A backlog of spent quotas that is due is gone after one pass of `RecoverQuota`.
use grok2api.Prelude.{
  ℕ, zero, suc, ap, ◌≤◌, ◌≡◌, refl, sym, subst, ◌∙◌, true, false, some, some_injective, List, [],
  ◌∷◌, All, length, take, sort_stable, length-sort_stable, Bool-cases, inl, inr, arith, Text,
  text_eq, text_eq_iff, mem, lookup, lookup-insert, insert, Time,
}
use grok2api.Account.{Account, recover_quota_window, mark_ready}
use grok2api.Scheduler.State.{Accounts}
use grok2api.Recovery.Base.{World, Env, listed, save, walk}
use grok2api.Recovery.Batch.{candidates, batch, quota_before}
use grok2api.Recovery.Oldest.{ids, ids-All, sort_stable-All, candidates-All}
use grok2api.Recovery.Quota.{
  QuotaResult, quota_due, recover_quota_one, recover_quota_batch, recover_quota, quota_batch,
  max_quota_probes_per_tick,
}

-- Every account is stored under its own id.
abbrev pub Keyed : Accounts → Type 0
Keyed m = All (λ (k, a). a.id ≡ k) m

-- What is still due has its id among these.
abbrev Left : Time → List Text → Accounts → Type 0
Left now ks m =
    (k : Text) (a : Account) → lookup k m ≡ some a → quota_due now a ≡ true → mem k ks ≡ true

recover_quota_window-id : (now : Time) (a : Account) → (recover_quota_window now now a).id ≡ a.id
unfolding recover_quota_window mark_ready
recover_quota_window-id now a = refl

recover_quota_window-due :
    (now : Time) (a : Account) → quota_due now (recover_quota_window now now a) ≡ false
unfolding quota_due recover_quota_window mark_ready
recover_quota_window-due now a = refl

take-all {ℓ} : {A : Type ℓ} (n : ℕ) (xs : List A) → length xs ≤ n → take n xs ≡ xs
take-all zero [] h = refl
take-all zero (x ∷ xs) h = elim h [ ]
take-all (suc n) [] h = refl
take-all (suc n) (x ∷ xs) h = ap (λ ys. x ∷ ys) (take-all n xs (omega (arith, h)))

save-Left :
    (now : Time) (a : Account) (ks : List Text) (m : Accounts)
    → Left now (a.id ∷ ks) m
    → Left now ks (insert a.id (recover_quota_window now now a) m)
unfolding mem
save-Left now a ks m h k b e d =
    let t = lookup-insert a.id k (recover_quota_window now now a) m in
    let u = recover_quota_window-due now a in
    elim (Bool-cases (text_eq a.id k)) [
      | inl same ↦
          let v : some (recover_quota_window now now a) ≡ some b = ground arith in
          let i = some_injective v in cc
      | inr other ↦ let v = h k b (ground arith) d in ground arith
    ]

one-store :
    (env : Env) (now : Time) (a : Account) (s : World × QuotaResult)
    → env.can_save (recover_quota_window now now a) ≡ true
    → (recover_quota_one env now a s).0.store
      ≡ insert a.id (recover_quota_window now now a) s.0.store
unfolding recover_quota_one save
one-store env now a (w, r) e = rw e (unfold recover_quota_window in unfold mark_ready in refl)

walk-Left :
    (env : Env) (now : Time) (items : List Account) (s : World × QuotaResult)
    → ((a : Account) → env.can_save a ≡ true)
    → Left now (ids items) s.0.store
    → Left now [] (walk (recover_quota_one env now) items s).0.store
unfolding walk
walk-Left env now [] s ok h = h
walk-Left env now (a ∷ items) s ok h = walk-Left env now items (recover_quota_one env now a s) ok (
    subst (Left now (ids items)) (sym (one-store env now a s (ok _)))
      (save-Left now a (ids items) s.0.store h))

listed-Left :
    (now : Time) (ks : List Text) (m : Accounts)
    → Keyed m
    → All (λ a. quota_due now a ≡ true → mem a.id ks ≡ true) (listed m)
    → Left now ks m
unfolding listed lookup quota_due
listed-Left now ks [] keyed h k b e d = cc
listed-Left now ks ((j, a) ∷ m) keyed h k b e d = elim (Bool-cases (text_eq j k)) [
  | inl same ↦
      let v : some a ≡ some b = ground arith in
      let i = some_injective v in
      let q = h.0 (ap (quota_due now) i ∙ d) in let n = (text_eq_iff j k).0 same in cc
  | inr other ↦ listed-Left now ks m keyed.1 h.1 k b (ground arith) d
]

-- When the store lists its accounts and takes every write, and no more accounts are due than a tick
-- takes, then after the pass no account of the store is due.
pub recover_quota-drains :
    (env : Env) (now : Time) (w : World)
    → env.can_list ≡ true
    → ((a : Account) → env.can_save a ≡ true)
    → Keyed w.store
    → length (candidates (quota_due now) (listed w.store)).0 ≤ max_quota_probes_per_tick
    → (k : Text) (a : Account) → lookup k (recover_quota env now w).0.store ≡ some a
    → quota_due now a ≡ false
unfolding recover_quota recover_quota_batch quota_batch batch mem
recover_quota-drains env now w lists ok keyed few k a e =
    let found = (candidates (quota_due now) (listed w.store)).0 in
    let sorted = sort_stable quota_before found in
    let whole =
      take-all max_quota_probes_per_tick sorted
        (omega (arith, few, length-sort_stable quota_before found)) in
    let chosen = take max_quota_probes_per_tick sorted in
    let named = candidates-All _ (quota_due now) (listed w.store) (
      sort_stable-All _ quota_before found (ids-All sorted (λ k. mem k (ids sorted)) (λ k e. e))) in
    let start =
      subst (λ xs. Left now (ids xs) w.store) (sym whole)
        (listed-Left now (ids sorted) w.store keyed named) in
    let skipped = (quota_batch now w).1 in
    let zeroes : QuotaResult = record {
      recovered = 0;
      deferred = 0;
      failed = 0;
      skipped = skipped;
    } in
    let done = walk-Left env now chosen (w, zeroes) ok start k a in
    elim (Bool-cases (quota_due now a)) [
      | inl still ↦ let t = done (ground arith) still in cc
      | inr gone ↦ gone
    ]
