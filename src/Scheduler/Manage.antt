-- ===== src/Scheduler/Manage.antt =====
-- Accounts that come and go (scheduler.go, `Upsert`, `Delete`, `PromoteDue`,
-- `ClearStickyByAccount`).
use grok2api.Prelude.{
  ℕ, Bool, true, false, ◌&&◌, none, some, List, [], ◌∷◌, ◌++◌, map, ltb, if◌then◌else◌, Text,
  is_empty, trim_space, lookup, erase, map_values, Time,
}
use grok2api.Account.{Account, is_ready, or_one, recover_cooldown}
use grok2api.Scheduler.State.{Scheduler, Accounts, put, remove_ready, bump_revision, signal}
use grok2api.Scheduler.Lease.{drop_sticky}

-- The limit of an account that comes in.
unfoldable pub admit_max_active : ℕ → ℕ → ℕ
admit_max_active cap n = if ltb 0 cap && ltb cap (or_one n) then cap else or_one n

-- The leases that are out on the account that is replaced.
unfoldable pub active_of : Text → Accounts → ℕ → ℕ
active_of id accounts own = elim (lookup id accounts) [ none ↦ own | some old ↦ old.active ]

-- `Upsert`
unfoldable pub upsert : Account → Scheduler → Scheduler
unfolding admit_max_active active_of signal
upsert a s =
    let item = record a {
      max_active = admit_max_active s.max_active_cap a.max_active;
      active = active_of a.id s.accounts a.active;
    } in
    let t = put a.id item (remove_ready a.id s) in
    signal (
      bump_revision
        (record t { ready = if is_ready a.pool then t.ready ++ a.id ∷ [] else t.ready }))

-- `Delete`
unfoldable pub delete : Text → Scheduler → Scheduler × Bool
unfolding signal
delete id s = elim (lookup id s.accounts) [
  | none ↦ (s, false)
  | some a ↦
      let t = remove_ready id s in
      (signal (bump_revision (record t { accounts = erase id t.accounts })), true)
]

-- The accounts that the range over the map promotes, in its order.
unfoldable pub promoted : Time → Accounts → List Account
promoted now [] = []
promoted now ((id, a) ∷ m) =
    let rest = promoted now m in
    let (b, due) = recover_cooldown now now a in if due then b ∷ rest else rest

abbrev pub is_nil : List Account → Bool
is_nil [] = true
is_nil (x ∷ xs) = false

-- `PromoteDue`
unfoldable pub promote_due : Time → Scheduler → Scheduler × List Account
unfolding promoted signal
promote_due now s =
    let up = promoted now s.accounts in
    let t = record s {
      accounts = map_values (λ a. (recover_cooldown now now a).0) s.accounts;
      ready = s.ready ++ map (λ a. a.id) up;
    } in
    (if is_nil up then t else signal (bump_revision t), up)

-- `ClearStickyByAccount`
unfoldable pub clear_sticky_by_account : Text → Scheduler → Scheduler
clear_sticky_by_account id s = if is_empty (trim_space id) then s else drop_sticky id s
