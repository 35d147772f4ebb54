-- ===== src/Scheduler/Cooldown.antt =====
-- Failure streaks and the cooldowns that grow with them (scheduler.go, `NoteFailure`,
-- `NoteSuccess`, `FailStreak`, `CooldownForStreak`).
pub mod Growth
use grok2api.Prelude.{
  ℕ, zero, suc, ◌+◌, ◌-◌, ◌*◌, ltb, leb, ◌==◌, if◌then◌else◌, Option, none, some, Text, is_empty,
  trim_space, lookup, insert, erase, Duration, second, hour,
}
use grok2api.Scheduler.State.{Scheduler}

abbrev pub max_fail_streak_cap : ℕ
max_fail_streak_cap = 6

-- `FailStreak`
unfoldable fail_streak_of : Text → Scheduler → ℕ
fail_streak_of id s = elim (lookup id s.fail_streak) [ none ↦ 0 | some n ↦ n ]

-- `NoteFailure`
unfoldable pub note_failure : Text → Scheduler → Scheduler × ℕ
unfolding fail_streak_of
note_failure id s =
    let streak = fail_streak_of id s + 1 in
    if is_empty (trim_space id)
    then (s, 0)
    else (record s { fail_streak = insert id streak s.fail_streak }, streak)

-- `NoteSuccess`
unfoldable pub note_success : Text → Scheduler → Scheduler
note_success id s =
    if is_empty (trim_space id) then s else record s { fail_streak = erase id s.fail_streak }

-- The loop: `rounds` doublings, stopped once above an hour.
unfoldable pub doublings : ℕ → Duration → Duration
doublings zero cooldown = cooldown
doublings (suc rounds) cooldown =
    let more = doublings rounds (cooldown * 2) in if ltb hour cooldown then cooldown else more

unfoldable pub cooldown_for_streak : Duration → ℕ → Duration
unfolding doublings
cooldown_for_streak base streak =
    let start : Duration = if base == 0 then second else base in
    if leb streak 1
    then start
    else doublings ((if ltb max_fail_streak_cap streak then max_fail_streak_cap else streak) - 1)
        start
