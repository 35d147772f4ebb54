-- ===== src/Admin/Rotation.antt =====
-- A session is replaced at most once, and never comes back.
use grok2api.Prelude.{
  ℕ, ◌≤◌, ◌<◌, ◌≡◌, ◌≢◌, refl, ap, sym, subst, ◌∙◌, true, false, none, List, [], ◌∷◌, arith, ltb,
  Text, codes, trim_space, text_eq_iff, Time,
}
use grok2api.Admin.Session.{
  Session, opened, new_session, session_active, access_active, revoke_session, rotate,
}

-- A session that is opened can be used from its creation on and before each of its expiries, the
-- access token not longer than the session, until somebody revokes it.
pub new_session-active :
    (id family admin : Text) (access refresh : List ℕ) (access_expires expires at t : Time)
    (s : Session)
    → new_session id family admin access refresh access_expires expires at ≡ opened s
    → (at < s.access_expires_at)
      × (s.access_expires_at ≤ s.expires_at)
      × (session_active t s ≡ ltb t s.expires_at)
      × (access_active t s ≡ ltb t s.access_expires_at)
unfolding new_session session_active access_active
new_session-active id family admin access refresh access_expires expires at t s e =
    (ground arith, ground arith, ground arith, ground arith)

-- What may happen to a session.
pub data SessionOp : Type 0 where
  revokes : Time → Text → SessionOp
  rotates : Time → Session → SessionOp

unfoldable pub apply_op : SessionOp → Session → Session
apply_op (revokes at reason) s = (revoke_session at reason s).0
apply_op (rotates at replacement) s = (rotate at replacement s).0

unfoldable pub apply_ops : List SessionOp → Session → Session
apply_ops [] s = s
apply_ops (op ∷ ops) s = apply_ops ops (apply_op op s)

apply_op_revoked : (op : SessionOp) (s : Session) → s.revoked_at ≢ 0 → apply_op op s ≡ s
unfolding apply_op revoke_session rotate
apply_op_revoked (revokes at reason) s h = ground arith
apply_op_revoked (rotates at replacement) s h = ground arith

apply_ops_revoked : (ops : List SessionOp) (s : Session) → s.revoked_at ≢ 0 → apply_ops ops s ≡ s
unfolding apply_ops
apply_ops_revoked [] s h = refl
apply_ops_revoked (op ∷ ops) s h =
    ap (apply_ops ops) (apply_op_revoked op s h) ∙ apply_ops_revoked ops s h

-- A rotation that succeeds is of a session that was active, to another session of the same family
-- and administrator; afterwards the session is active at no time.
pub rotate-replaces :
    (at t : Time) (replacement s : Session)
    → (rotate at replacement s).1 ≡ none
    → let r = (rotate at replacement s).0 in
      (session_active at s ≡ true)
      × (session_active t r ≡ false)
      × (r.replaced_by_session_id ≡ trim_space replacement.id)
      × (r.replaced_by_session_id ≢ s.id)
      × (replacement.family_id ≡ s.family_id)
      × (replacement.admin_user_id ≡ s.admin_user_id)
      × (r.revocation_reason ≡ codes "rotated")
unfolding rotate revoke_session session_active
rotate-replaces at t replacement s e = (
  ground arith,
  ground arith,
  ground arith,
  ground (arith, text_eq_iff (trim_space replacement.id) s.id),
  ground (arith, text_eq_iff replacement.family_id s.family_id),
  ground (arith, text_eq_iff replacement.admin_user_id s.admin_user_id),
  ground arith,
)

rotated_revoked :
    (at : Time) (replacement s : Session)
    → (rotate at replacement s).1 ≡ none
    → (rotate at replacement s).0.revoked_at ≢ 0
unfolding rotate revoke_session
rotated_revoked at replacement s e = ground arith

revoked_rotate :
    (at : Time) (replacement s : Session) → s.revoked_at ≢ 0 → (rotate at replacement s).1 ≢ none
unfolding rotate
revoked_rotate at replacement s h = ground arith

-- A refresh secret works once: after a rotation that succeeds, whatever revocations and rotations
-- follow, at whatever times, the session stays as the rotation left it, and no rotation succeeds again.
pub rotate-once :
    (at again : Time) (replacement other s : Session) (ops : List SessionOp)
    → (rotate at replacement s).1 ≡ none
    → (apply_ops ops (rotate at replacement s).0 ≡ (rotate at replacement s).0)
      × ((rotate again other (apply_ops ops (rotate at replacement s).0)).1 ≢ none)
rotate-once at again replacement other s ops e = (
  still,
  subst (λ t. (rotate again other t).1 ≢ none) (sym still) (revoked_rotate again other _ revoked),
)
  where
    revoked : (rotate at replacement s).0.revoked_at ≢ 0
    revoked = rotated_revoked at replacement s e

    still : apply_ops ops (rotate at replacement s).0 ≡ (rotate at replacement s).0
    still = apply_ops_revoked ops _ revoked
