-- ===== src/Gateway/Sticky/Isolation.antt =====
-- Which sessions share a sticky key, and what it keeps of a secret.
use mathlib.Core.List.{append_cancel_right}
use grok2api.Prelude.{
  ◌≡◌, ◌↔◌, refl, ap, ◌⊎◌, All, sym, ◌∙◌, true, false, Option, List, [], ◌∷◌, ◌++◌, arith, Text,
  codes, trim_bytes, is_empty,
}
use grok2api.Upstream.Headers.{Header}
use grok2api.Client.Access.{ClientGrant}
use grok2api.Gateway.Sticky.{
  first_header, sticky_headers, token_of, hashed_token, sticky_key_from_request, is_auth_key,
  compose_trimmed, compose_sticky_key_parts,
}

-- A key with the tenant in front gives the tenant away.
compose_tenant :
    (client prompt affinity : Text)
    → is_empty prompt ≡ false
    → is_empty client ≡ false
    → is_auth_key client ≡ false
    → compose_trimmed client prompt affinity ≡ client ++ (codes "|" ++ (codes "cache:" ++ prompt))
unfolding compose_trimmed
compose_tenant client prompt affinity p c a = rw (p, c, a) refl

-- Behind one API key, the tenants stay apart: with the same prompt cache key, two tenants that are
-- named, not by a hash of a secret, share a sticky key only if they are the same tenant; what else the
-- payloads hold does not matter. Without a tenant, or with one that is a hash, all of a cache key
-- share one session, whatever the payloads hold.
pub compose-isolates :
    (client client' prompt affinity affinity' : Text)
    → is_empty (trim_bytes prompt) ≡ false
    → ((is_empty (trim_bytes client) ≡ false)
          × (is_empty (trim_bytes client') ≡ false)
          × (is_auth_key (trim_bytes client) ≡ false)
          × (is_auth_key (trim_bytes client') ≡ false)
        → (compose_sticky_key_parts client prompt affinity
            ≡ compose_sticky_key_parts client' prompt affinity')
          ↔ (trim_bytes client ≡ trim_bytes client'))
      × ((is_empty (trim_bytes client) ≡ true) ⊎ (is_auth_key (trim_bytes client) ≡ true)
          → compose_sticky_key_parts client prompt affinity ≡ codes "cache:" ++ trim_bytes prompt)
unfolding compose_sticky_key_parts
compose-isolates client client' prompt affinity affinity' p = (
  (λ (c, c', a, a').
      let e = compose_tenant (trim_bytes client) (trim_bytes prompt) (trim_bytes affinity) p c a in
      let e' =
        compose_tenant (trim_bytes client') (trim_bytes prompt) (trim_bytes affinity') p c' a' in
      (
        (λ same.
            append_cancel_right _ _ (codes "|" ++ (codes "cache:" ++ trim_bytes prompt))
              (sym e ∙ same ∙ e')),
        (λ same.
            e ∙ ap (λ t. t ++ (codes "|" ++ (codes "cache:" ++ trim_bytes prompt))) same ∙ sym e'),
      )),
  (λ h. unfold compose_trimmed in ground arith),
)

first_header-agree :
    (header other : Header) (names : List Text)
    → All (λ name. header name ≡ other name) names
    → first_header header names ≡ first_header other names
unfolding first_header
first_header-agree header other [] h = refl
first_header-agree header other (name ∷ names) h =
    ground (arith, h.0, first_header-agree header other names h.1)

-- The sticky key keeps nothing of a client's secret but its hash: two requests whose headers name the
-- same user and session, which have the same grant, and whose secrets, if any, have the same hash, get
-- the same key, whatever else the secrets and the headers are.
pub sticky_key-hides_secret :
    (hash : Text → Text) (header other : Header) (grant : Option ClientGrant)
    → All (λ name. header name ≡ other name) sticky_headers
    → is_empty (token_of header) ≡ is_empty (token_of other)
    → hash (token_of header) ≡ hash (token_of other)
    → sticky_key_from_request hash header grant ≡ sticky_key_from_request hash other grant
unfolding sticky_key_from_request hashed_token
sticky_key-hides_secret hash header other grant h e k =
    rw (first_header-agree header other sticky_headers h, e, k) refl
