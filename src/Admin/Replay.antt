-- ===== src/Admin/Replay.antt =====
-- A replayed cookie closes its whole family of sessions.
use grok2api.Prelude.{
  ◌≡◌, ◌≢◌, refl, ap, sym, subst, ◌∙◌, Bool, true, false, ◌&&◌, Option, none, some, List, [], ◌∷◌,
  All, ◌==◌, if◌then◌else◌, arith, Text, codes, text_eq, text_eq_iff, is_empty, trim_space, Time,
  Duration,
}
use grok2api.Admin.Session.{Session}
use grok2api.Admin.User.{AdminUser}
use grok2api.Admin.Store.Tables.{Tables, StoreError}
use grok2api.Admin.Store.Sessions.{get_session}
use grok2api.Admin.Store.Rotations.{update_where, revoked_row, revoke_family}
use grok2api.Admin.Service.Base.{
  Primitives, Draws, Answer, granted, denied, LoginOutput, invalid_refresh, split_cookie,
  authenticate_access,
}
use grok2api.Admin.Service.Refresh.{
  was_rotated, in_grace, replayed, refresh_session, refresh_cookie, refresh,
}
use grok2api.Admin.Admission.{find-All, granted_access, authenticate_access-Admitted}

module _ (family : Text) where
  -- Every session of the family is revoked.
  abbrev pub Closed : Tables → Type 0
  Closed t = All (λ (s : Session). s.family_id ≡ family → s.revoked_at ≢ 0) t.sessions

  closed_sessions :
      (wanted : Session → Bool) (now : Time) (reason : Text) (ss : List Session)
      → now ≢ 0
      → ((s : Session) → s.family_id ≡ family → wanted s ≡ true)
      → All
          (λ (s : Session). s.family_id ≡ family → s.revoked_at ≢ 0)
          (update_where
            (λ (s : Session). wanted s && s.revoked_at == 0)
            (revoked_row now reason)
            ss)
  unfolding update_where
  closed_sessions wanted now reason [] n w = tt
  closed_sessions wanted now reason (s ∷ ss) n w =
      (closed s, closed_sessions wanted now reason ss n w)
    where
      closed :
          (s : Session)
          → let r = if wanted s && s.revoked_at == 0 then revoked_row now reason s else s in
            r.family_id ≡ family → r.revoked_at ≢ 0
      closed s e = ground (arith, w s)

  revoke_family-Closed :
      (now : Time) (t : Tables)
      → now ≢ 0
      → is_empty (trim_space family) ≡ false
      → trim_space family ≡ family
      → ((revoke_family family now (codes "refresh_replayed") t).1 ≡ none)
        × Closed (revoke_family family now (codes "refresh_replayed") t).0
  unfolding revoke_family is_empty
  revoke_family-Closed now t n named trimmed =
      let late : (now == 0) ≡ false = ground arith in
      rw (named, late)
        (
          refl,
          closed_sessions (λ (s : Session). text_eq s.family_id (trim_space family)) now
              (codes "refresh_replayed") t.sessions n
              (λ s e. ground (arith, text_eq_iff s.family_id (trim_space family))),
        )

replayed_lem :
    (x : Tables × Option StoreError) → x.1 ≡ none → replayed x ≡ (x.0, denied invalid_refresh)
replayed_lem (t, none) e = refl
replayed_lem (t, some a) e = cc

-- The branch of a replay.
refresh-replayed :
    (p : Primitives) (grace : Duration) (cookie ip agent id secret : Text) (draws : Draws)
    (now : Time) (t : Tables) (old : Session)
    → split_cookie cookie ≡ some (id, secret)
    → get_session id t ≡ some old
    → old.refresh_secret_hash ≡ p.sha256 secret
    → was_rotated old ≡ true
    → in_grace grace now old ≡ false
    → refresh p grace cookie ip agent draws now t
      ≡ replayed (revoke_family old.family_id now (codes "refresh_replayed") t)
unfolding refresh refresh_session
refresh-replayed p grace cookie ip agent id secret draws now t old c g h r w =
    let own = (text_eq_iff old.refresh_secret_hash (p.sha256 secret)).1 h in
    let x = replayed (revoke_family old.family_id now (codes "refresh_replayed") t) in
    subst (λ o. refresh_cookie p grace o ip agent draws now t ≡ x) (sym c)
      (subst (λ o. refresh_session p grace secret ip agent draws now t o ≡ x) (sym g)
        (rw (own, r, w) refl))

not_admitted :
    (p : Primitives) (family token : Text) (now : Time) (t : Tables) (u : AdminUser) (s : Session)
    → Closed family t
    → s.family_id ≡ family
    → authenticate_access p token now t ≢ granted (u, s)
not_admitted p family token now t u s closed same e =
    let h = granted_access p token now t u s e in
    let revoked =
      find-All (λ (s : Session). s.family_id ≡ family → s.revoked_at ≢ 0) _ t.sessions s closed
        h.0 in
    revoked same (authenticate_access-Admitted p token now t u s e).not_revoked

-- A cookie that comes back after it was replaced, past the grace, is refused; and from then on no
-- access token lets anybody in with a session of its family, at whatever time. The family is stored
-- without white space around it, and the clock is set.
pub refresh-closes_family :
    (p : Primitives) (grace : Duration) (cookie ip agent id secret : Text) (draws : Draws)
    (now later : Time) (t : Tables) (old s : Session) (token : Text) (u : AdminUser)
    → now ≢ 0
    → split_cookie cookie ≡ some (id, secret)
    → get_session id t ≡ some old
    → old.refresh_secret_hash ≡ p.sha256 secret
    → was_rotated old ≡ true
    → in_grace grace now old ≡ false
    → is_empty (trim_space old.family_id) ≡ false
    → trim_space old.family_id ≡ old.family_id
    → s.family_id ≡ old.family_id
    → ((refresh p grace cookie ip agent draws now t).1 ≡ denied invalid_refresh)
      × (authenticate_access p token later (refresh p grace cookie ip agent draws now t).0
          ≢ granted (u, s))
refresh-closes_family p grace cookie ip agent id secret draws now later t old s token u n c g h r w
      named trimmed same =
    let back = refresh-replayed p grace cookie ip agent id secret draws now t old c g h r w in
    let closed = revoke_family-Closed old.family_id now t n named trimmed in
    let x = revoke_family old.family_id now (codes "refresh_replayed") t in
    let answer = back ∙ replayed_lem x closed.0 in
    (
      ap (λ (y : Tables × Answer LoginOutput). y.1) answer,
      subst
          (λ (y : Tables × Answer LoginOutput).
            authenticate_access p token later y.0 ≢ granted (u, s))
          (sym answer) (not_admitted p old.family_id token later x.0 u s closed.1 same),
    )
