-- ===== src/Client/Permits.antt =====
-- The slots of a key (client_access.go, `AcquireConcurrency`, `Release`).
use grok2api.Prelude.{
  ℕ, ◌+◌, ◌-◌, ◌≤◌, ◌<◌, ◌≡◌, refl, ap, false, arith, if◌then◌else◌, Text, is_empty, text_eq,
  text_eq_iff, insert, erase, lookup-insert, lookup-erase, pos_part,
}
use grok2api.Client.Access.{
  ClientGrant, Slots, taken, Permit, unlimited, slot, Acquired, permitted, rejected,
  acquire_concurrency, release_permit,
}

-- The slots that an answer holds of a key.
abbrev pub slots_on : Acquired → Text → ℕ
slots_on (permitted (slot key released)) j =
    if released then 0 else (if text_eq key j then 1 else 0)
slots_on (permitted unlimited) j = 0
slots_on (rejected e) j = 0

taken-insert :
    (key j : Text) (n : ℕ) (s : Slots)
    → taken j (insert key n s) ≡ (if text_eq key j then n else taken j s)
unfolding taken
taken-insert key j n s = ground (arith, lookup-insert key j n s)

taken-erase :
    (key j : Text) (s : Slots) → taken j (erase key s) ≡ (if text_eq key j then 0 else taken j s)
unfolding taken
taken-erase key j s = ground (arith, lookup-erase key j s)

pub acquire-taken :
    (g : ClientGrant) (s : Slots) (j : Text)
    → (taken j (acquire_concurrency g s).0 ≡ taken j s + slots_on (acquire_concurrency g s).1 j)
      × (0 < slots_on (acquire_concurrency g s).1 j
          → taken j (acquire_concurrency g s).0 ≤ pos_part g.max_concurrent)
unfolding acquire_concurrency
acquire-taken g s j = (
  ground (arith, taken-insert g.key_id j (taken g.key_id s + 1) s, text_eq_iff g.key_id j),
  λ h. ground (arith, taken-insert g.key_id j (taken g.key_id s + 1) s, text_eq_iff g.key_id j),
)

-- A permit that was handed out names its key.
abbrev pub IsNamed : Permit → Type 0
IsNamed unlimited = Unit {0}
IsNamed (slot key released) = is_empty key ≡ false

-- Releasing a permit frees its slot once: the number that are taken falls by one, and a second
-- release changes nothing.
release-taken :
    (p : Permit) (s : Slots) (j : Text)
    → IsNamed p
    → (taken j (release_permit p s).1 ≡ taken j s - slots_on (permitted p) j)
      × (release_permit (release_permit p s).0 (release_permit p s).1 ≡ release_permit p s)
unfolding release_permit
release-taken unlimited s j h = (omega arith, refl)
release-taken (slot key released) s j h = (
  ground (arith, taken-erase key j s, taken-insert key j (taken key s - 1) s, text_eq_iff key j),
  ground arith,
)

acquired-IsNamed :
    (g : ClientGrant) (s : Slots) (p : Permit)
    → (acquire_concurrency g s).1 ≡ permitted p
    → IsNamed p
unfolding acquire_concurrency
acquired-IsNamed g s unlimited e = tt
acquired-IsNamed g s (slot key released) e = ground arith

-- A slot that is taken and given back leaves every key with as many as before.
pub release-acquire :
    (g : ClientGrant) (s : Slots) (p : Permit) (j : Text)
    → (acquire_concurrency g s).1 ≡ permitted p
    → taken j (release_permit p (acquire_concurrency g s).0).1 ≡ taken j s
release-acquire g s p j e = omega (
  arith,
  (acquire-taken g s j).0,
  ap (λ a. slots_on a j) e,
  (release-taken p (acquire_concurrency g s).0 j (acquired-IsNamed g s p e)).0,
)
