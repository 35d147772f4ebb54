-- ===== src/Scheduler/State.antt =====
-- The scheduler's state, its construction and its settings (scheduler.go). A method that holds the
-- lock returns the new state.
use grok2api.Prelude.{
  ℕ, ◌+◌, ◌*◌, ◌%◌, ◌^◌, Bool, true, false, ◌||◌, List, [], ◌∷◌, ◌++◌, ltb, ◌==◌, if◌then◌else◌,
  length, take, Text, codes, text_eq, trim_space, to_lower, insert, map_values, remove, Time,
  Duration, minute, hour,
}
use grok2api.Account.{Account, is_ready, or_one}

pub data Strategy : Type 0 where
  round_robin fill_first : Strategy

-- `ParseStrategy`
pub parse_strategy : Text → Strategy
unfolding trim_space to_lower text_eq
parse_strategy raw =
    let name = to_lower (trim_space raw) in
    if text_eq name (codes "fill-first")
      || text_eq name (codes "fill_first")
      || text_eq name (codes "fillfirst")
    then fill_first
    else round_robin

pub record StickyEntry : Type 0 where
  pub account_id : Text
  pub expires_at : Time

abbrev pub Accounts : Type 0
Accounts = List (Text × Account)

-- `notify`, a channel of capacity 1, is whether a signal is pending in it.
pub record Scheduler : Type 0 where
  pub accounts : Accounts
  pub ready : List Text
  pub notify : Bool
  pub revision : ℕ
  pub sticky : List (Text × StickyEntry)
  pub sticky_ttl : Duration
  pub sticky_on : Bool
  pub quota_retry : Duration
  pub strategy : Strategy
  pub rr_cursor : ℕ
  pub fail_streak : List (Text × ℕ)
  pub max_active_cap : ℕ
  pub active_size : ℕ
  pub hot : List Text

-- `uint64` counters wrap.
abbrev pub u64 : ℕ → ℕ
u64 n = n % 2 ^ 64

abbrev pub default_sticky_ttl : Duration
default_sticky_ttl = 30 * minute

abbrev pub empty : Scheduler
empty = record {
  accounts = [];
  ready = [];
  notify = false;
  revision = 1;
  sticky = [];
  sticky_ttl = default_sticky_ttl;
  sticky_on = true;
  quota_retry = 24 * hour;
  strategy = round_robin;
  rr_cursor = 0;
  fail_streak = [];
  max_active_cap = 0;
  active_size = 0;
  hot = [];
}

-- One round of the loop of `New`.
unfoldable pub enlist : Scheduler → Account → Scheduler
enlist s a =
    let item = record a { max_active = or_one a.max_active } in
    record s {
      accounts = insert a.id item s.accounts;
      ready = if is_ready a.pool then s.ready ++ a.id ∷ [] else s.ready;
    }

unfoldable pub enlist_all : Scheduler → List Account → Scheduler
enlist_all s [] = s
enlist_all s (a ∷ rest) = enlist_all (enlist s a) rest

-- `New`
unfoldable pub new : List Account → Scheduler
unfolding enlist_all enlist
new accounts = enlist_all empty accounts

unfoldable pub with_strategy : Text → Scheduler → Scheduler
with_strategy name s = record s { strategy = parse_strategy name }

unfoldable pub with_sticky : Bool → Duration → Scheduler → Scheduler
with_sticky enabled ttl s = record s {
  sticky_on = enabled;
  sticky_ttl = if ltb 0 ttl then ttl else s.sticky_ttl;
}

unfoldable pub clamp_active : ℕ → Account → Account
clamp_active n a =
    if a.max_active == 0 || ltb n a.max_active then record a { max_active = n } else a

-- `ApplyMaxActive`
unfoldable pub apply_max_active : ℕ → Scheduler → Scheduler
unfolding clamp_active
apply_max_active n s =
    let cap : ℕ = or_one n in
    record s { max_active_cap = cap; accounts = map_values (clamp_active cap) s.accounts }

-- `ApplyActiveSize`
unfoldable pub apply_active_size : ℕ → Scheduler → Scheduler
apply_active_size n s =
    if n == 0
    then record s { active_size = n; hot = [] }
    else record s { active_size = n; hot = if ltb n (length s.hot) then take n s.hot else s.hot }

-- `ConfigureQuotaRetry`
unfoldable pub configure_quota_retry : Duration → Scheduler → Scheduler
configure_quota_retry d s = if d == 0 then s else record s { quota_retry = d }

-- `signal`: a send that is dropped when one is pending.
unfoldable pub signal : Scheduler → Scheduler
signal s = record s { notify = true }

-- `removeReadyLocked` with `dropHotLocked`
unfoldable pub remove_ready : Text → Scheduler → Scheduler
remove_ready id s = record s { ready = remove id s.ready; hot = remove id s.hot }

-- A write through the pointer that `accounts` holds for `id`.
abbrev pub put : Text → Account → Scheduler → Scheduler
put id a s = record s { accounts = insert id a s.accounts }

abbrev pub bump_revision : Scheduler → Scheduler
bump_revision s = record s { revision = u64 (s.revision + 1) }
