-- ===== src/Upstream/Classify.antt =====
-- `ClassifyFailure` of classifier.go.
use grok2api.Prelude.{
  ℕ, Bool, false, not, ◌&&◌, ◌||◌, Option, none, some, List, [], ◌∷◌, ◌++◌, ltb, leb, ◌==◌,
  if◌then◌else◌, Text, codes, text_eq, is_empty, trim_space, to_lower, contains,
}
use grok2api.Account.{Reason, no_reason, quota, cooldown, validating, auth}
use grok2api.Upstream.Json.{Fields, get, as_string, as_object}
use grok2api.Upstream.Numbers.{find_quota}

pub data FailureKind : Type 0 where
  by_quota rate_limit by_auth by_request by_upstream : FailureKind

pub record Failure : Type 0 where
  pub kind : FailureKind
  pub reason : Reason
  pub code : Text
  pub message : Text
  pub quota_actual : ℕ
  pub quota_limit : ℕ
  pub model_scoped : Bool

abbrev pub or_else : Text → Text → Text
or_else a b = if is_empty a then b else a

abbrev pub trimmed : Option Text → Text
trimmed none = codes ""
trimmed (some s) = trim_space s

-- `firstStringField`
unfoldable pub first_string_field : Fields → List Text → Text
first_string_field values [] = codes ""
first_string_field values (key ∷ keys) =
    or_else (trimmed (as_string (get key values))) (first_string_field values keys)

-- The metadata of a nested `error` object.
unfoldable pub nested_metadata : Fields → Fields → Text × Text
nested_metadata root nested = (
  or_else
      (or_else (first_string_field nested (codes "code" ∷ codes "error_code" ∷ []))
        (first_string_field root (codes "code" ∷ codes "error_code" ∷ [])))
      (first_string_field nested (codes "type" ∷ codes "error_type" ∷ [])),
  or_else (first_string_field nested (codes "message" ∷ codes "error" ∷ []))
      (first_string_field root (codes "message" ∷ [])),
)

unfoldable pub flat_metadata : Text → Fields → Text × Text
flat_metadata body root =
    let code = first_string_field root (codes "code" ∷ codes "error_code" ∷ []) in
    let message =
      or_else (trimmed (as_string (get (codes "error") root)))
        (first_string_field root (codes "message" ∷ [])) in
    if is_empty code && is_empty message then (codes "", trim_space body) else (code, message)

unfoldable pub object_metadata : Text → Fields → Option Fields → Text × Text
object_metadata body root (some nested) = nested_metadata root nested
object_metadata body root none = flat_metadata body root

-- `extractFailureMetadata`; `parsed` is what `json.Unmarshal` makes of the body, `none` an error.
unfoldable pub extract_failure_metadata : Text → Option Fields → Text × Text
extract_failure_metadata [] parsed = (codes "", codes "")
extract_failure_metadata (c ∷ body) none = (codes "", trim_space (c ∷ body))
extract_failure_metadata (c ∷ body) (some root) =
    object_metadata (c ∷ body) root (as_object (get (codes "error") root))

-- Whether some marker stands in the text.
unfoldable pub contains_any : Text → List Text → Bool
contains_any s [] = false
contains_any s (m ∷ ms) = contains s m || contains_any s ms

abbrev quota_markers : List Text
quota_markers =
    codes "free usage"
    ∷ codes "free-usage"
    ∷ codes "usage exhausted"
    ∷ codes "usage-exhausted"
    ∷ codes "rolling 24-hour"
    ∷ codes "quota exceeded"
    ∷ codes "quota_exceeded"
    ∷ codes "insufficient_quota"
    ∷ codes "used all the included free usage"
    ∷ codes "included free usage for model"
    ∷ []

unfoldable pub is_quota_failure : ℕ → Text → Text → Bool
is_quota_failure status code message =
    not (not (status == 429) && not (status == 403) && ltb status 400)
    && (text_eq code (codes "subscription:free-usage-exhausted")
        || contains code (codes "usage-exhausted")
        || (contains code (codes "spending-limit") || contains message (codes "spending-limit"))
        || contains code (codes "personal-team-blocked")
        || (contains_any message quota_markers || contains_any code quota_markers))

unfoldable pub is_model_quota_exhaustion : Text → Bool
is_model_quota_exhaustion s =
    contains s (codes "used all the included free usage for model")
    || contains s (codes "included free usage for model")

abbrev pub hard_markers : List Text
hard_markers =
    codes "no auth context"
    ∷ codes "invalid or expired credentials"
    ∷ codes "invalid_token"
    ∷ codes "invalid token"
    ∷ codes "token has expired"
    ∷ codes "expired credentials"
    ∷ []

-- `code + " " + message`
abbrev pub joined : Text → Text → Text
joined code message = code ++ codes " " ++ message

unfoldable pub is_transient_chat_denied : ℕ → Text → Text → Bool
is_transient_chat_denied status code message =
    (status == 403 || status == 401)
    && (not (contains_any (joined code message) hard_markers)
        && ((text_eq code (codes "permission-denied") || contains code (codes "permission-denied"))
            || (contains message (codes "chat endpoint is denied")
                || contains message (codes "access to the chat endpoint"))))

abbrev auth_markers : List Text
auth_markers =
    codes "invalid or expired credentials"
    ∷ codes "invalid_token"
    ∷ codes "invalid token"
    ∷ codes "expired credentials"
    ∷ codes "no auth context"
    ∷ codes "unauthorized"
    ∷ codes "token has expired"
    ∷ codes "refresh_token"
    ∷ []

unfoldable pub is_auth_failure : ℕ → Text → Text → Bool
is_auth_failure status code message =
    if is_transient_chat_denied status code message
    then false
    else if status == 401 || status == 403
    then not (is_quota_failure status code message)
    else contains_any (joined code message) auth_markers

abbrev quota_numbers : Option (ℕ × ℕ) → ℕ × ℕ
quota_numbers none = (0, 0)
quota_numbers (some m) = m

-- The `switch`.
unfoldable pub classify : ℕ → Text → Text → Failure
classify status code message =
    let lower_code = to_lower code in
    let lower_message = to_lower message in
    let plain : Failure = record {
      kind = by_upstream;
      reason = no_reason;
      code = code;
      message = message;
      quota_actual = 0;
      quota_limit = 0;
      model_scoped = false;
    } in
    if is_quota_failure status lower_code lower_message
    then record plain {
      kind = by_quota;
      reason = quota;
      code = or_else code (codes "subscription:free-usage-exhausted");
      quota_actual = (quota_numbers (find_quota message)).0;
      quota_limit = (quota_numbers (find_quota message)).1;
      model_scoped = is_model_quota_exhaustion (joined lower_code lower_message);
    }
    else if status == 429
    then record plain {
      kind = rate_limit;
      reason = cooldown;
      code = or_else code (codes "rate_limit");
    }
    else if is_transient_chat_denied status lower_code lower_message
    then record plain {
      kind = by_upstream;
      reason = validating;
      code = or_else code (codes "permission-denied");
    }
    else if is_auth_failure status lower_code lower_message
    then record plain { kind = by_auth; reason = auth; code = or_else code (codes "auth_failed") }
    else if leb 500 status
    then record plain { kind = by_upstream }
    else if leb 400 status
    then record plain { kind = by_request }
    else record plain { kind = by_upstream }

-- `ClassifyFailure`
unfoldable pub classify_failure : ℕ → Text → Option Fields → Failure
unfolding classify
classify_failure status body parsed =
    let (code, message) = extract_failure_metadata body parsed in classify status code message
