-- ===== src/Client/Models.antt =====
-- Which models a request may use (clientkey.go, client_access.go).
use grok2api.Prelude.{
  ◌<◌, ◌≡◌, ◌⊎◌, refl, ap, sym, ◌∙◌, Bool, true, false, not, ◌&&◌, ◌||◌, Option, none, some, List,
  [], ◌∷◌, map, arith, Text, is_empty, trim_space, text_eq_iff, mem, Time,
}
use grok2api.Client.Key.{
  ModelPolicy, all_models, allowlist, other_policy, active, Credential, normal, in_scopes,
  policy_allows, credential_allows,
}
use grok2api.Client.Access.{
  ClientGrant, grant_allows, requested_or, authorize_model, is_all, keep_allowed, filter_model_ids,
  Repository, granted, denied, unauthorized, grant_of, check_credential, check_secret, authenticate,
}

in_scopes-mem :
    (model : Text) (scopes : List Text) → in_scopes model scopes ≡ mem model (map normal scopes)
unfolding in_scopes mem
in_scopes-mem model [] = refl
in_scopes-mem model (s ∷ ss) = ground (arith, in_scopes-mem model ss)

-- The grant of a credential allows exactly the models that the credential does.
grant_of-allows :
    (c : Credential) (model : Text) → grant_allows (grant_of c) model ≡ credential_allows c model
unfolding grant_allows grant_of credential_allows
grant_of-allows c model = refl

secret_looked_up :
    (sha256 : Text → Text) (repo : Repository) (at : Time) (secret : Text) (g : ClientGrant)
    (r : Option Bool)
    → is_empty secret ≡ false
    → check_secret sha256 repo at secret r ≡ granted g
    → check_credential at (repo.find_by_hash (sha256 secret)) ≡ granted g
unfolding check_secret
secret_looked_up sha256 repo at secret g none h e = cc
secret_looked_up sha256 repo at secret g (some required) h e = ground arith

found_credential :
    (at : Time) (g : ClientGrant) (f : Option (Option Credential))
    → check_credential at f ≡ granted g
    → (c : Credential) × (f ≡ some (some c))
      × (c.key.revoked_at ≡ 0)
      × ((c.key.expires_at ≡ 0) ⊎ (at < c.key.expires_at))
      × (g.authenticated ≡ true)
      × ((model : Text) → grant_allows g model ≡ credential_allows c model)
unfolding check_credential active
found_credential at g none e = cc
found_credential at g (some none) e = cc
found_credential at g (some (some c)) e = (
  c,
  refl,
  ground arith,
  ground arith,
  ap (λ h. h.authenticated) (sym same),
  λ model. ap (λ h. grant_allows h model) (sym same) ∙ grant_of-allows c model,
)
  where
    same : grant_of c ≡ g
    same = ground arith

-- A secret that is not blank is granted access only by a credential that the store has for its hash
-- and that is active now, that is neither revoked nor expired; the grant then allows exactly the
-- models that the credential allows.
pub authenticate_sound :
    (sha256 : Text → Text) (repo : Repository) (at : Time) (secret : Text) (g : ClientGrant)
    → is_empty (trim_space secret) ≡ false
    → authenticate sha256 repo at secret ≡ granted g
    → (c : Credential) × (repo.find_by_hash (sha256 (trim_space secret)) ≡ some (some c))
      × (c.key.revoked_at ≡ 0)
      × ((c.key.expires_at ≡ 0) ⊎ (at < c.key.expires_at))
      × (g.authenticated ≡ true)
      × ((model : Text) → grant_allows g model ≡ credential_allows c model)
unfolding authenticate
authenticate_sound sha256 repo at secret g h e =
    found_credential at g _
      (secret_looked_up sha256 repo at (trim_space secret) g repo.auth_required h e)

-- With a policy of keys in force, a request that brings no secret is refused.
pub authenticate_required :
    (sha256 : Text → Text) (repo : Repository) (at : Time) (secret : Text)
    → is_empty (trim_space secret) ≡ true
    → repo.auth_required ≡ some true
    → authenticate sha256 repo at secret ≡ denied unauthorized
unfolding authenticate check_secret
authenticate_required sha256 repo at secret h e = ground arith

-- The effective model is decided before the policy is asked: whatever a request names, or leaves
-- out, a key with an allowlist gets only a model whose normal form is on the list, and a model that
-- is granted is not empty.
pub authorize_model_sound :
    (g : ClientGrant) (requested default model : Text)
    → authorize_model g requested default ≡ some model
    → (model ≡ requested_or (trim_space requested) (trim_space default))
      × (is_empty (normal model) ≡ false)
      × (g.authenticated ≡ true
          → g.model_policy ≡ allowlist
          → mem (normal model) (map normal g.model_scopes) ≡ true)
unfolding authorize_model grant_allows
authorize_model_sound g requested default model e = (
  ground arith,
  ground arith,
  λ known listed.
      sym (in_scopes-mem (normal model) g.model_scopes)
      ∙ unfold policy_allows in listed_model g.model_policy listed (ground arith),
)
  where
    listed_model :
        (p : ModelPolicy)
        → p ≡ allowlist
        → policy_allows p g.model_scopes (normal model) ≡ true
        → in_scopes (normal model) g.model_scopes ≡ true
    listed_model all_models h k = cc
    listed_model allowlist h k = unfold policy_allows in k
    listed_model other_policy h k = cc

mem-keep_allowed :
    (g : ClientGrant) (models : List Text) (m : Text)
    → mem m (keep_allowed g models) ≡ (mem m models && grant_allows g m)
unfolding keep_allowed mem
mem-keep_allowed g [] m = refl
mem-keep_allowed g (x ∷ xs) m = ground (arith, mem-keep_allowed g xs m, text_eq_iff x m)

-- The catalogue that a key sees lists a model exactly when the full one does and the key may use it:
-- any model for an unauthenticated request and for a key of all models, else those that its policy
-- allows.
pub mem-filter_model_ids :
    (g : ClientGrant) (models : List Text) (m : Text)
    → mem m (filter_model_ids g models)
      ≡ (mem m models && ((not g.authenticated || is_all g.model_policy) || grant_allows g m))
unfolding filter_model_ids
mem-filter_model_ids g models m = ground (arith, mem-keep_allowed g models m)
