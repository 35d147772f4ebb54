-- ===== src/Client/Access.antt =====
-- backend/internal/service/client_access.go: the grant of a request, and the slots of a key. The
-- repository and the hash function are parameters.
use grok2api.Prelude.{
  ℕ, ◌+◌, ◌-◌, Bool, true, false, not, ◌&&◌, ◌||◌, Option, none, some, List, [], ◌∷◌, ◌++◌, leb,
  ◌==◌, if◌then◌else◌, Text, codes, is_empty, trim_space, lookup, insert, erase, Time, ℤ, pos,
  is_neg, pos_part,
}
use grok2api.Client.Key.{
  ModelPolicy, all_models, other_policy, active, Credential, normal, policy_allows,
}

pub data AccessError : Type 0 where
  unauthorized model_not_allowed rate_limited concurrency_limited dependency_failed : AccessError

-- The empty policy of the zero grant is `other_policy`.
pub record ClientGrant : Type 0 where
  pub authenticated : Bool
  pub key_id : Text
  pub principal : Text
  pub model_policy : ModelPolicy
  pub model_scopes : List Text
  pub rpm_limit : ℤ
  pub max_concurrent : ℤ

abbrev no_grant : ClientGrant
no_grant = record {
  authenticated = false;
  key_id = [];
  principal = [];
  model_policy = other_policy;
  model_scopes = [];
  rpm_limit = pos 0;
  max_concurrent = pos 0;
}

-- `ClientGrant.AllowsModel`
unfoldable pub grant_allows : ClientGrant → Text → Bool
grant_allows g model =
    not (is_empty (normal model))
    && (not g.authenticated || policy_allows g.model_policy g.model_scopes (normal model))

abbrev pub requested_or : Text → Text → Text
requested_or requested default = if is_empty requested then default else requested

-- `AuthorizeModel`; `none` is `ErrModelNotAllowed`.
unfoldable pub authorize_model : ClientGrant → Text → Text → Option Text
authorize_model g requested default =
    let model = requested_or (trim_space requested) (trim_space default) in
    if not (grant_allows g model) then none else some model

abbrev pub is_all : ModelPolicy → Bool
is_all all_models = true
is_all _ = false

unfoldable pub keep_allowed : ClientGrant → List Text → List Text
keep_allowed g [] = []
keep_allowed g (m ∷ ms) = if grant_allows g m then m ∷ keep_allowed g ms else keep_allowed g ms

-- `FilterModelIDs`
unfoldable pub filter_model_ids : ClientGrant → List Text → List Text
unfolding keep_allowed
filter_model_ids g models =
    if not g.authenticated || is_all g.model_policy then models else keep_allowed g models

-- What the source asks of its store; `none` is an error of it.
pub record Repository : Type 0 where
  pub auth_required : Option Bool
  pub find_by_hash : Text → Option (Option Credential)

pub data Authenticated : Type 0 where
  granted : ClientGrant → Authenticated
  denied : AccessError → Authenticated

unfoldable pub grant_of : Credential → ClientGrant
grant_of c = record {
  authenticated = true;
  key_id = c.key.id;
  principal = codes "client-key:" ++ c.key.id;
  model_policy = c.key.model_policy;
  model_scopes = c.scopes;
  rpm_limit = c.key.rpm_limit;
  max_concurrent = c.key.max_concurrent;
}

-- What is done with the credential that the store has.
unfoldable pub check_credential : Time → Option (Option Credential) → Authenticated
unfolding grant_of
check_credential at none = denied dependency_failed
check_credential at (some none) = denied unauthorized
check_credential at (some (some c)) =
    if at == 0
    then denied dependency_failed
    else if not (active at c.key)
    then denied unauthorized
    else granted (grant_of c)

unfoldable pub check_secret : (Text → Text) → Repository → Time → Text → Option Bool → Authenticated
unfolding check_credential
check_secret sha256 repo at secret none = denied dependency_failed
check_secret sha256 repo at secret (some required) =
    if is_empty secret
    then (if required then denied unauthorized else granted no_grant)
    else check_credential at (repo.find_by_hash (sha256 secret))

-- `Authenticate`. The write of the time of the last use cannot fail it.
unfoldable pub authenticate : (Text → Text) → Repository → Time → Text → Authenticated
unfolding check_secret
authenticate sha256 repo at secret =
    check_secret sha256 repo at (trim_space secret) repo.auth_required

-- `activeByKey`
abbrev pub Slots : Type 0
Slots = List (Text × ℕ)

unfoldable pub taken : Text → Slots → ℕ
taken key slots = elim (lookup key slots) [ none ↦ 0 | some n ↦ n ]

-- `ClientPermit`: the no-op one, or one slot of a key with the state of its `sync.Once`.
pub data Permit : Type 0 where
  unlimited : Permit
  slot : Text → Bool → Permit

pub data Acquired : Type 0 where
  permitted : Permit → Acquired
  rejected : AccessError → Acquired

-- `AcquireConcurrency`
unfoldable pub acquire_concurrency : ClientGrant → Slots → Slots × Acquired
unfolding taken
acquire_concurrency g slots =
    if not g.authenticated || (not (is_neg g.max_concurrent) && pos_part g.max_concurrent == 0)
    then (slots, permitted unlimited)
    else if is_empty g.key_id || is_neg g.max_concurrent
    then (slots, rejected unauthorized)
    else if leb (pos_part g.max_concurrent) (taken g.key_id slots)
    then (slots, rejected concurrency_limited)
    else (insert g.key_id (taken g.key_id slots + 1) slots, permitted (slot g.key_id false))

-- `clientPermit.Release`
unfoldable pub release_permit : Permit → Slots → Permit × Slots
unfolding taken
release_permit unlimited slots = (unlimited, slots)
release_permit (slot key released) slots =
    if is_empty key || released
    then (slot key released, slots)
    else if leb (taken key slots) 1
    then (slot key true, erase key slots)
    else (slot key true, insert key (taken key slots - 1) slots)

-- `ConsumeRPM`; the store takes the decision, `none` is an error of it.
pub record RateLimitDecision : Type 0 where
  pub allowed : Bool
  pub limit : ℕ

unfoldable consume_rpm :
    (Text → Time → Option RateLimitDecision) → Time → ClientGrant → Option AccessError
consume_rpm store at g =
    if not g.authenticated
    then none
    else if at == 0
    then some dependency_failed
    else elim (store g.key_id at) [
      | none ↦ some dependency_failed
      | some d ↦ if d.allowed then none else some rate_limited
    ]
