-- ===== src/Gateway/Sticky.antt =====
-- The key that ties a session to an account (backend/internal/service/sticky.go). A text is here the
-- list of its bytes, which the limit of 2048 counts; the hashes are parameters.
pub mod Isolation
use grok2api.Prelude.{
  ℕ, Bool, true, false, not, ◌&&◌, ◌||◌, Option, none, some, List, [], ◌∷◌, ◌++◌, ltb, ◌==◌,
  if◌then◌else◌, Text, codes, trim_bytes, to_lower, text_eq, has_prefix, is_empty, length, take,
  drop,
}
use grok2api.Upstream.Json.{
  Value, Items, nil, cons, Fields, str, arr, obj, get, as_string, as_object,
}
use grok2api.Upstream.Headers.{Header}
use grok2api.Client.Key.{sort}
use grok2api.Client.Access.{ClientGrant}

abbrev text_of : Option Text → Text
text_of none = []
text_of (some s) = s

-- The value, trimmed, that stands under a key.
unfoldable string_at : Text → Fields → Text
string_at key body = trim_bytes (text_of (as_string (get key body)))

unfoldable or_text : Text → Text → Text
or_text a b = if is_empty a then b else a

-- The loop over the headers.
unfoldable pub first_header : Header → List Text → Text
first_header header [] = []
first_header header (name ∷ names) =
    let value = trim_bytes (header name) in
    let rest = first_header header names in
    if is_empty value then rest else name ++ codes ":" ++ value

abbrev pub sticky_headers : List Text
sticky_headers =
    codes "X-Grok2API-Sticky"
    ∷ codes "X-User-Id"
    ∷ codes "X-OpenAI-Client-User"
    ∷ codes "X-Newapi-User"
    ∷ codes "X-Request-Id"
    ∷ []

-- The identity of the client key, when the grant has one that is as it must be.
unfoldable grant_identity : Option ClientGrant → Text
grant_identity none = []
grant_identity (some g) =
    let expected = codes "client-key:" ++ trim_bytes g.key_id in
    if g.authenticated
      && (text_eq g.principal expected && not (text_eq expected (codes "client-key:")))
    then expected
    else []

-- The secret that the client sent.
unfoldable pub token_of : Header → Text
token_of header =
    let token = header (codes "Authorization") in
    if text_eq (to_lower (take 7 token)) (codes "bearer ")
    then trim_bytes (drop 7 token)
    else trim_bytes (header (codes "x-api-key"))

unfoldable pub hashed_token : (Text → Text) → Text → Text
hashed_token hash token = if is_empty token then [] else codes "auth-hash:" ++ hash token

-- `StickyKeyFromRequest`
unfoldable pub sticky_key_from_request : (Text → Text) → Header → Option ClientGrant → Text
unfolding first_header grant_identity token_of hashed_token or_text
sticky_key_from_request hash header grant =
    or_text (first_header header sticky_headers)
      (or_text (grant_identity grant) (hashed_token hash (token_of header)))

-- `PromptCacheKeyFromPayload`; `none` is a payload that is empty or does not decode.
unfoldable prompt_cache_key : Option Fields → Text
prompt_cache_key none = []
prompt_cache_key (some body) = string_at (codes "prompt_cache_key") body

abbrev capped_text : Text → Text
capped_text s = if ltb 2048 (length s) then take 2048 s else s

abbrev pub part : Text → Text → List Text
part tag s = if is_empty s then [] else (tag ++ s) ∷ []

-- The text of a message that is one of the system's.
unfoldable system_text : Option Fields → Text
system_text none = []
system_text (some msg) =
    let role = to_lower (string_at (codes "role") msg) in
    if text_eq role (codes "system") || text_eq role (codes "developer")
    then string_at (codes "content") msg
    else []

-- The loop over the messages; it breaks at the first text that is not empty.
unfoldable first_system : Items → Text
first_system nil = []
first_system (cons v items) =
    let rest = first_system items in or_text (system_text (as_object (some v))) rest

unfoldable tool_name : Fields → Text
tool_name tool = or_text (string_at (codes "name") tool) (
    or_text (nested (as_object (get (codes "function") tool)))
      (to_lower (string_at (codes "type") tool)))
  where
    nested : Option Fields → Text
    nested none = []
    nested (some fn) = string_at (codes "name") fn

unfoldable tool_entry : Option Fields → List Text
tool_entry none = []
tool_entry (some tool) =
    if is_empty (tool_name tool)
    then []
    else (to_lower (string_at (codes "type") tool) ++ codes ":" ++ tool_name tool) ∷ []

-- The loop over the tools.
unfoldable tool_entries : Items → List Text
tool_entries nil = []
tool_entries (cons v items) = tool_entry (as_object (some v)) ++ tool_entries items

abbrev as_items : Option Value → Items
as_items (some (arr items)) = items
as_items _ = nil

-- `strings.Join`
unfoldable join : Text → List Text → Text
join sep [] = []
join sep (s ∷ []) = s
join sep (s ∷ t ∷ ts) = s ++ sep ++ join sep (t ∷ ts)

unfoldable affinity_parts : Fields → List Text
affinity_parts body =
    part (codes "m:") (string_at (codes "model") body)
    ++ part (codes "i:") (capped_text (string_at (codes "instructions") body))
    ++ part (codes "s:") (capped_text (first_system (as_items (get (codes "messages") body))))
    ++ part (codes "t:")
        (join (codes ",") (sort (tool_entries (as_items (get (codes "tools") body)))))

-- `PayloadAffinityKey`; `short_hash` gives the first eight bytes of the hash in hexadecimal.
unfoldable payload_affinity_key : (Text → Text) → Option Fields → Text
payload_affinity_key short_hash none = []
payload_affinity_key short_hash (some body) = if_any (affinity_parts body)
  where
    if_any : List Text → Text
    if_any [] = []
    if_any (p ∷ ps) = codes "aff:" ++ short_hash (join (codes "\n") (p ∷ ps))

-- A key that is made from a secret, which is none of a tenant.
unfoldable pub is_auth_key : Text → Bool
is_auth_key key = has_prefix key (codes "auth-hash:") || has_prefix key (codes "auth:")

-- `ComposeStickyKeyParts` once the parts are trimmed
unfoldable pub compose_trimmed : Text → Text → Text → Text
unfolding is_auth_key
compose_trimmed client prompt affinity =
    if not (is_empty prompt)
    then (if not (is_empty client) && not (is_auth_key client)
        then client ++ (codes "|" ++ (codes "cache:" ++ prompt))
        else codes "cache:" ++ prompt)
    else if not (is_empty client)
    then (if not (is_empty affinity) then client ++ (codes "|" ++ affinity) else client)
    else affinity

-- `ComposeStickyKeyParts`
unfoldable pub compose_sticky_key_parts : Text → Text → Text → Text
unfolding compose_trimmed
compose_sticky_key_parts client prompt affinity =
    compose_trimmed (trim_bytes client) (trim_bytes prompt) (trim_bytes affinity)
