-- ===== src/Recovery/Batch.antt =====
-- The accounts of a pass: those that are due, in order, and no more than the limit of a tick.
use grok2api.Prelude.{
  ℕ, ◌+◌, ◌-◌, Bool, not, ◌&&◌, List, [], ◌∷◌, length, take, sort_stable, ltb, ◌==◌, if◌then◌else◌,
  text_lt, Time, false, true,
}
use grok2api.Account.{Account, Reason, no_reason, quota, auth, cooldown, validating, disabled}

unfoldable pub reason_is : Reason → Reason → Bool
reason_is no_reason no_reason = true
reason_is quota quota = true
reason_is auth auth = true
reason_is cooldown cooldown = true
reason_is validating validating = true
reason_is disabled disabled = true
reason_is _ _ = false

-- A deadline that is set and not reached.
abbrev pub still_waits : Time → Account → Bool
still_waits now a = not (a.retry_at == 0) && ltb now a.retry_at

-- The loop that collects the candidates, and the number of the others.
unfoldable pub candidates : (Account → Bool) → List Account → List Account × ℕ
candidates due [] = ([], 0)
candidates due (a ∷ items) =
    let (found, skipped) = candidates due items in
    if due a then (a ∷ found, skipped) else (found, skipped + 1)

-- The sort and the limit.
unfoldable pub batch : ℕ → (Account → Account → Bool) → List Account × ℕ → List Account × ℕ
batch most before (found, skipped) =
    let sorted = sort_stable before found in
    (
      take most sorted,
      if ltb most (length sorted) then skipped + (length sorted - most) else skipped,
    )

-- The orders of the passes.
unfoldable pub quota_before : Account → Account → Bool
quota_before a b =
    if a.retry_at == 0 && not (b.retry_at == 0)
    then true
    else if not (a.retry_at == 0) && b.retry_at == 0
    then false
    else if not (a.retry_at == b.retry_at)
    then ltb a.retry_at b.retry_at
    else text_lt a.id b.id

unfoldable pub validating_before : Account → Account → Bool
validating_before a b =
    if a.updated_at == b.updated_at then text_lt a.id b.id else ltb a.updated_at b.updated_at

unfoldable pub expiring_before : Account → Account → Bool
expiring_before a b = ltb a.expires_at b.expires_at

unfoldable pub auth_before : Account → Account → Bool
auth_before a b =
    if not (a.expires_at == b.expires_at)
    then (if a.expires_at == 0
        then false
        else if b.expires_at == 0
        then true
        else ltb a.expires_at b.expires_at)
    else ltb a.updated_at b.updated_at
