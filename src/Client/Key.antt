-- ===== src/Client/Key.antt =====
-- backend/internal/domain/clientkey/clientkey.go: a client key and its validation. A method with a
-- pointer receiver returns the key as it leaves it, beside its result.
use grok2api.Prelude.{
  ℕ, Bool, true, false, not, ◌&&◌, ◌||◌, Option, none, some, List, [], ◌∷◌, ltb, ◌==◌,
  if◌then◌else◌, Text, text_eq, text_lt, is_empty, trim_space, to_lower, mem, Time, ℤ, is_neg,
}

pub data Origin : Type 0 where
  managed config_api_key other_origin : Origin

pub data ModelPolicy : Type 0 where
  all_models allowlist other_policy : ModelPolicy

pub record ClientKey : Type 0 where
  pub id : Text
  pub name : Text
  pub origin : Origin
  pub key_hash : List ℕ
  pub key_prefix : Text
  pub model_policy : ModelPolicy
  pub rpm_limit : ℤ
  pub max_concurrent : ℤ
  pub expires_at : Time
  pub revoked_at : Time
  pub last_used_at : Time
  pub created_at : Time
  pub updated_at : Time

pub data KeyError : Type 0 where
  identity_required unsupported_origin hash_required negative_rpm negative_concurrency
        times_required updated_before_created empty_scope scopes_with_all no_scopes
        unsupported_policy revocation_time_required :
      KeyError

pub data Validated : Type 0 where
  valid : List Text → Validated
  invalid : KeyError → Validated

-- A lower-case name with no white space around it.
unfoldable pub normal : Text → Text
normal s = to_lower (trim_space s)

-- The loop of `normalizeScopes`; `result` also serves as the set `seen`. `none` is an empty scope.
unfoldable pub collect : List Text → List Text → Option (List Text)
collect result [] = some result
collect result (s ∷ rest) =
    let onward = collect (if mem (normal s) result then result else normal s ∷ result) rest in
    if is_empty (normal s) then none else onward

unfoldable pub sorted_insert : Text → List Text → List Text
sorted_insert s [] = s ∷ []
sorted_insert s (t ∷ ts) = if text_lt t s then t ∷ sorted_insert s ts else s ∷ t ∷ ts

-- `sort.Strings`
unfoldable pub sort : List Text → List Text
unfolding sorted_insert
sort [] = []
sort (s ∷ ss) = sorted_insert s (sort ss)

unfoldable pub sort_option : Option (List Text) → Option (List Text)
unfolding sort
sort_option none = none
sort_option (some ss) = some (sort ss)

-- `normalizeScopes`
unfoldable pub normalize_scopes : List Text → Option (List Text)
unfolding collect sort_option
normalize_scopes scopes = sort_option (collect [] scopes)

abbrev pub is_nil : List Text → Bool
is_nil [] = true
is_nil (x ∷ xs) = false

-- The `switch` on the policy.
unfoldable check_policy : ModelPolicy → Option (List Text) → Validated
check_policy p none = invalid empty_scope
check_policy all_models (some scopes) =
    if is_nil scopes then valid scopes else invalid scopes_with_all
check_policy allowlist (some scopes) = if is_nil scopes then invalid no_scopes else valid scopes
check_policy other_policy (some scopes) = invalid unsupported_policy

abbrev known_origin : Origin → Bool
known_origin other_origin = false
known_origin _ = true

-- `KeyHash == [32]byte{}`
unfoldable pub is_zero_hash : List ℕ → Bool
is_zero_hash [] = true
is_zero_hash (b ∷ bs) = b == 0 && is_zero_hash bs

-- `NormalizeAndValidate`
unfoldable normalize_and_validate : List Text → ClientKey → ClientKey × Validated
unfolding check_policy is_zero_hash
normalize_and_validate scopes k =
    let t = record k {
      id = trim_space k.id;
      name = trim_space k.name;
      key_prefix = trim_space k.key_prefix;
    } in
    (
      t,
      if is_empty t.id || is_empty t.name || is_empty t.key_prefix
          then invalid identity_required
          else if not (known_origin k.origin)
          then invalid unsupported_origin
          else if is_zero_hash k.key_hash
          then invalid hash_required
          else if is_neg k.rpm_limit
          then invalid negative_rpm
          else if is_neg k.max_concurrent
          then invalid negative_concurrency
          else if k.created_at == 0 || k.updated_at == 0
          then invalid times_required
          else if ltb k.updated_at k.created_at
          then invalid updated_before_created
          else check_policy k.model_policy (normalize_scopes scopes),
    )

-- `Active`
unfoldable pub active : Time → ClientKey → Bool
active at k = k.revoked_at == 0 && (k.expires_at == 0 || ltb at k.expires_at)

-- `Revoke`
unfoldable pub revoke : Time → ClientKey → ClientKey × Option KeyError
revoke at k =
    if at == 0
    then (k, some revocation_time_required)
    else if not (k.revoked_at == 0)
    then (k, none)
    else (record k { revoked_at = at; updated_at = at }, none)

pub record Credential : Type 0 where
  pub key : ClientKey
  pub scopes : List Text

pub data Built : Type 0 where
  built : Credential → Built
  refused : KeyError → Built

unfoldable credential_of : ClientKey × Validated → Built
credential_of (k, valid scopes) = built (record { key = k; scopes = scopes })
credential_of (k, invalid e) = refused e

-- `NewCredential`
unfoldable new_credential : ClientKey → List Text → Built
unfolding credential_of
new_credential k scopes = credential_of (normalize_and_validate scopes k)

-- The loop over the scopes.
unfoldable pub in_scopes : Text → List Text → Bool
in_scopes model [] = false
in_scopes model (s ∷ ss) = text_eq (normal s) model || in_scopes model ss

unfoldable pub policy_allows : ModelPolicy → List Text → Text → Bool
unfolding in_scopes
policy_allows all_models scopes model = true
policy_allows allowlist scopes model = in_scopes model scopes
policy_allows other_policy scopes model = false

-- `Credential.AllowsModel`
unfoldable pub credential_allows : Credential → Text → Bool
unfolding policy_allows
credential_allows c model =
    not (is_empty (normal model)) && policy_allows c.key.model_policy c.scopes (normal model)
