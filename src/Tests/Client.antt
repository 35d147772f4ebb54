-- ===== src/Tests/Client.antt =====
-- The theorems on client keys at concrete inputs.
use grok2api.Prelude.{
  arith, text_lt, to_lower, map, ◌+◌, ◌<◌, ◌≡◌, ◌⊎◌, refl, true, false, some, none, [], ◌∷◌, map,
  mem, Text, codes, if◌then◌else◌, is_empty, trim_space, pos, lookup, text_eq, to_lower,
}
use grok2api.Client.Key.{
  revoke, normalize_scopes, collect, sort_option, sort, sorted_insert, allowlist, managed,
  Credential, active, normal, in_scopes, policy_allows, credential_allows,
}
use grok2api.Client.Access.{
  ClientGrant, grant_allows, requested_or, authorize_model, Repository, denied, unauthorized,
  grant_of, check_credential, check_secret, authenticate, slot, taken, acquire_concurrency,
  release_permit,
}
use grok2api.Client.Permits.{release-acquire}
use grok2api.Client.Scopes.{Ascending, normalize_scopes-Ascending, revoke-authenticate}
use grok2api.Client.Models.{authenticate_sound, authorize_model_sound}
use grok2api.Tests.Fixtures.{now}

abbrev credential : Credential
credential = record {
  key = record {
    id = codes "k";
    name = codes "key";
    origin = managed;
    key_hash = [];
    key_prefix = codes "g2";
    model_policy = allowlist;
    rpm_limit = pos 60;
    max_concurrent = pos 2;
    expires_at = now + 1;
    revoked_at = 0;
    last_used_at = 0;
    created_at = 1;
    updated_at = 1;
  };
  scopes = codes "grok-4" ∷ [];
}

abbrev key_grant : ClientGrant
key_grant = grant_of credential

-- The identity in the place of the hash.
abbrev repository : Repository
repository = record {
  auth_required = some true;
  find_by_hash = λ h. some (if text_eq h (codes "secret") then some credential else none);
}

authenticate_sound_example :
    (c : Credential) × (repository.find_by_hash (trim_space (codes " secret")) ≡ some (some c))
    × (c.key.revoked_at ≡ 0)
    × ((c.key.expires_at ≡ 0) ⊎ (now < c.key.expires_at))
    × (key_grant.authenticated ≡ true)
    × ((model : Text) → grant_allows key_grant model ≡ credential_allows c model)
unfolding authenticate check_secret check_credential active trim_space is_empty text_eq grant_of
authenticate_sound_example =
    authenticate_sound (λ s. s) repository now (codes " secret") key_grant refl refl

authorize_model_sound_example :
    (codes "grok-4" ≡ requested_or (trim_space (codes "grok-4")) (trim_space (codes "other")))
    × (is_empty (normal (codes "grok-4")) ≡ false)
    × (key_grant.authenticated ≡ true
        → key_grant.model_policy ≡ allowlist
        → mem (normal (codes "grok-4")) (map normal key_grant.model_scopes) ≡ true)
unfolding authorize_model grant_allows grant_of policy_allows in_scopes normal trim_space to_lower
    text_eq is_empty
authorize_model_sound_example =
    authorize_model_sound key_grant (codes "grok-4") (codes "other") (codes "grok-4") refl

release-acquire_example :
    taken
      (codes "k")
      (release_permit (slot (codes "k") false) (acquire_concurrency key_grant []).0).1
    ≡ taken (codes "k") []
unfolding acquire_concurrency grant_of is_empty lookup
release-acquire_example = release-acquire key_grant [] (slot (codes "k") false) (codes "k") refl

normalize_scopes-Ascending_example :
    Ascending (codes "grok-3" ∷ codes "grok-4" ∷ [])
    × (mem [] (codes "grok-3" ∷ codes "grok-4" ∷ []) ≡ false)
    × ((m : Text)
        → mem m (codes "grok-3" ∷ codes "grok-4" ∷ [])
          ≡ mem m (map normal (codes " Grok-4" ∷ codes "grok-3" ∷ codes "grok-4" ∷ [])))
unfolding normalize_scopes collect sort_option sort sorted_insert normal trim_space to_lower text_eq
    text_lt is_empty mem
normalize_scopes-Ascending_example =
    normalize_scopes-Ascending (codes " Grok-4" ∷ codes "grok-3" ∷ codes "grok-4" ∷ [])
      (codes "grok-3" ∷ codes "grok-4" ∷ []) refl

-- A store in which every secret is that of the key, revoked at the instant 7.
abbrev revoked_repository : Repository
revoked_repository = record {
  auth_required = some true;
  find_by_hash =
      λ h. some (some (record { key = (revoke 7 credential.key).0; scopes = codes "grok-4" ∷ [] }));
}

revoke-authenticate_example :
    (authenticate (λ s. s) revoked_repository now (codes "secret") ≡ denied unauthorized)
    × ((revoke 9 (revoke 7 credential.key).0).0 ≡ (revoke 7 credential.key).0)
unfolding trim_space is_empty
revoke-authenticate_example =
    revoke-authenticate 7 now 9 credential.key (codes "grok-4" ∷ []) true (λ s. s)
      revoked_repository (codes "secret") (omega arith) (omega arith) (omega arith) refl refl refl
