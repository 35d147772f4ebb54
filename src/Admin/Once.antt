-- ===== src/Admin/Once.antt =====
-- A refresh cookie works once.
pub mod Rotation
use grok2api.Prelude.{
  ℕ, zero, suc, ◌+◌, ◌-◌, ◌≤◌, ◌<◌, ◌≡◌, ◌≢◌, ◌⊎◌, refl, ap, sym, subst, ◌∙◌, Bool, true, false,
  not, ◌&&◌, ◌||◌, Option, none, some, some_injective, List, [], ◌∷◌, ◌++◌, All, All-append,
  All-map, ltb, ◌==◌, if◌then◌else◌, Bool-cases, inl, inr, arith, Text, codes, text_eq, text_eq_iff,
  is_empty, trim_space, Time, Duration,
}
use grok2api.Client.Key.{is_zero_hash}
use grok2api.Admin.Session.{Session, Opened, opened, rejected, new_session, session_active}
use grok2api.Admin.User.{AdminUser, can_authenticate}
use grok2api.Admin.Store.Tables.{Tables, StoreError, find, count, delete_where, is_some, user_by_id}
use grok2api.Admin.Store.Reservations.{history_retention}
use grok2api.Admin.Store.Sessions.{
  get_session, session_row, clashes, fits, insert_session, prune_sessions, validate_session,
}
use grok2api.Admin.Store.Rotations.{
  RotationResult, rotation_done, rotation_refused, rotation_failed, rotatable, rotated_row,
  update_where, rotation_added, mark_rotated, rotate_valid, rotate_session, revoke_family,
}
use grok2api.Admin.Limit.Counts.{count_mono}
use grok2api.Admin.Service.Base.{
  Primitives, Draws, Answer, granted, denied, AuthError, LoginOutput, split_cookie,
}
use grok2api.Admin.Service.Refresh.{
  was_rotated, in_grace, replayed, rotated_to, replace_with, tokens_of, draw_replacement, for_user,
  refresh_session, refresh_cookie, refresh,
}
use grok2api.Admin.Admission.{find-All}
use grok2api.Admin.Once.Rotation.{Spent, rotate_session-Spent}
use grok2api.Admin.Answers.{sides, not_granted}

rotated_done :
    (u : Tables) (o out : LoginOutput) (x : Tables × RotationResult)
    → rotated_to o x ≡ (u, granted out)
    → x ≡ (u, rotation_done)
rotated_done u o out (t, rotation_done) e =
    ap (λ (y : Tables × Answer LoginOutput). (y.0, rotation_done)) e
rotated_done u o out (t, rotation_refused) e = absurd (not_granted t u _ out e)
rotated_done u o out (t, rotation_failed x) e = absurd (not_granted t u _ out e)

module _ (p : Primitives) (grace : Duration) (secret ip agent : Text) (now : Time) (t u : Tables)
    (out : LoginOutput) where
  not_replayed : (x : Tables × Option StoreError) → replayed x ≢ (u, granted out)
  not_replayed (v, none) e = not_granted v u _ out e
  not_replayed (v, some a) e = not_granted v u _ out e

  -- A session that was rotated is never granted another refresh.
  rotated_refused :
      (old : Session) (draws : Draws)
      → old.rotated_at ≢ 0
      → refresh_session p grace secret ip agent draws now t (some old) ≢ (u, granted out)
  unfolding refresh_session
  rotated_refused old draws spent e =
      elim (sides (not (text_eq old.refresh_secret_hash (p.sha256 secret))) e) [
        | inl x ↦ not_granted t u _ out x.1
        | inr x ↦ elim (sides (was_rotated old) x.1) [
          | inl y ↦ elim (sides (in_grace grace now old) y.1) [
            | inl z ↦ not_granted t u _ out z.1
            | inr z ↦
                not_replayed (revoke_family old.family_id now (codes "refresh_replayed") t) z.1
          ]
          | inr y ↦ spent (ground arith)
        ]
      ]

-- Whatever a refresh that is granted has done, the sessions with its secret are spent.
module _ (p : Primitives) (grace : Duration) (secret ip agent : Text) (now : Time) (t u : Tables)
    (out : LoginOutput)
    (one : count (λ (s : Session). text_eq s.refresh_secret_hash (p.sha256 secret)) t.sessions
      ≤ 1) where
  replaced-Spent :
      (old : Session) (a : AdminUser) (sid access refresh : Text) (o : Opened)
      → replace_with old (p.sha256 secret) ip agent a sid access refresh now t o ≡ (u, granted out)
      → All (Spent (p.sha256 secret)) u.sessions
  replaced-Spent old a sid access refresh (rejected x) e = absurd (not_granted t u _ out e)
  replaced-Spent old a sid access refresh (opened s) e =
      let replacement = record s { source_ip = ip; user_agent = agent; remember = old.remember } in
      rotate_session-Spent old.id (p.sha256 secret) replacement now t u one
        (rotated_done u _ out (rotate_session old.id (p.sha256 secret) replacement now t) e)

  drawn-Spent :
      (old : Session) (a : AdminUser) (o : Option (Text × Text × Text))
      → draw_replacement p old (p.sha256 secret) ip agent a now t o ≡ (u, granted out)
      → All (Spent (p.sha256 secret)) u.sessions
  drawn-Spent old a none e = absurd (not_granted t u _ out e)
  drawn-Spent old a (some (access, refresh, sid)) e = replaced-Spent old a sid access refresh _ e

  user-Spent :
      (old : Session) (draws : Draws) (o : Option AdminUser)
      → for_user p old (p.sha256 secret) ip agent draws now t o ≡ (u, granted out)
      → All (Spent (p.sha256 secret)) u.sessions
  user-Spent old draws none e = absurd (not_granted t u _ out e)
  user-Spent old draws (some a) e = elim (sides (can_authenticate p.is_bcrypt a) e) [
    | inl x ↦ drawn-Spent old a _ x.1
    | inr x ↦ absurd (not_granted t u _ out x.1)
  ]

  session-Spent :
      (draws : Draws) (o : Option Session)
      → refresh_session p grace secret ip agent draws now t o ≡ (u, granted out)
      → All (Spent (p.sha256 secret)) u.sessions
  unfolding refresh_session
  session-Spent draws none e = absurd (not_granted t u _ out e)
  session-Spent draws (some old) e =
      elim (sides (not (text_eq old.refresh_secret_hash (p.sha256 secret))) e) [
        | inl x ↦ absurd (not_granted t u _ out x.1)
        | inr x ↦ elim (sides (was_rotated old) x.1) [
          | inl y ↦ elim (sides (in_grace grace now old) y.1) [
            | inl z ↦ absurd (not_granted t u _ out z.1)
            | inr z ↦ absurd (
                not_replayed p grace secret ip agent now t u out
                  (revoke_family old.family_id now (codes "refresh_replayed") t) z.1)
          ]
          | inr y ↦ elim (sides (not (session_active now old)) y.1) [
            | inl z ↦ absurd (not_granted t u _ out z.1)
            | inr z ↦ user-Spent old draws _ z.1
          ]
        ]
      ]

session_refused :
    (p : Primitives) (grace : Duration) (secret ip agent : Text) (now : Time) (draws : Draws)
    (t u : Tables) (out : LoginOutput) (o : Option Session)
    → ((old : Session) → o ≡ some old → Spent (p.sha256 secret) old)
    → refresh_session p grace secret ip agent draws now t o ≢ (u, granted out)
unfolding refresh_session
session_refused p grace secret ip agent now draws t u out none h e = not_granted t u _ out e
session_refused p grace secret ip agent now draws t u out (some old) h e =
    elim (sides (not (text_eq old.refresh_secret_hash (p.sha256 secret))) e) [
      | inl x ↦ not_granted t u _ out x.1
      | inr x ↦
          let own = (text_eq_iff old.refresh_secret_hash (p.sha256 secret)).0 (ground arith) in
          rotated_refused p grace secret ip agent now t u out old draws (h old refl own)
            (unfold refresh_session in e)
    ]

-- A refresh secret works once: after a refresh that was granted, no cookie with the same secret is
-- granted another one, whatever session it names, whatever grace is set, and whenever and from
-- wherever it comes. The store has the hash of a secret once, as its schema says.
pub refresh-once :
    (p : Primitives) (grace again : Duration) (cookie ip agent id secret : Text) (draws : Draws)
    (now : Time) (t u : Tables) (out : LoginOutput) (cookie2 ip2 agent2 id2 : Text) (draws2 : Draws)
    (later : Time) (v : Tables) (out2 : LoginOutput)
    → refresh p grace cookie ip agent draws now t ≡ (u, granted out)
    → split_cookie cookie ≡ some (id, secret)
    → split_cookie cookie2 ≡ some (id2, secret)
    → count (λ (s : Session). text_eq s.refresh_secret_hash (p.sha256 secret)) t.sessions ≤ 1
    → refresh p again cookie2 ip2 agent2 draws2 later u ≢ (v, granted out2)
unfolding refresh get_session
refresh-once p grace again cookie ip agent id secret draws now t u out cookie2 ip2 agent2 id2 draws2
      later v out2 e c d one f =
    let first = subst (λ o. refresh_cookie p grace o ip agent draws now t ≡ (u, granted out)) c e in
    let spent =
      session-Spent p grace secret ip agent now t u out one draws (get_session id t) first in
    let second =
      subst (λ o. refresh_cookie p again o ip2 agent2 draws2 later u ≡ (v, granted out2)) d f in
    session_refused p again secret ip2 agent2 later draws2 u v out2 (get_session id2 u)
      (λ old g. find-All (Spent (p.sha256 secret)) _ u.sessions old spent g) second
