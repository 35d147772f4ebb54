-- ===== src/Tests/Sticky.antt =====
-- The theorems on sticky keys at concrete inputs.
use grok2api.Prelude.{
  ◌∷◌, ◌≡◌, ◌↔◌, ◌⊎◌, ◌++◌, refl, true, false, none, [], if◌then◌else◌, Text, codes, trim_bytes,
  is_empty, text_eq, to_lower,
}
use grok2api.Upstream.Headers.{Header}
use grok2api.Gateway.Sticky.{
  is_auth_key, token_of, sticky_key_from_request, compose_sticky_key_parts,
}
use grok2api.Gateway.Sticky.Isolation.{compose-isolates, sticky_key-hides_secret}

abbrev first : Text
first = codes "X-User-Id:1"

abbrev second : Text
second = codes "X-User-Id:2 "

compose-isolates_example :
    ((is_empty (trim_bytes first) ≡ false)
        × (is_empty (trim_bytes second) ≡ false)
        × (is_auth_key (trim_bytes first) ≡ false)
        × (is_auth_key (trim_bytes second) ≡ false)
      → (compose_sticky_key_parts first (codes "p") []
          ≡ compose_sticky_key_parts second (codes "p") (codes "aff:1"))
        ↔ (trim_bytes first ≡ trim_bytes second))
    × ((is_empty (trim_bytes first) ≡ true) ⊎ (is_auth_key (trim_bytes first) ≡ true)
        → compose_sticky_key_parts first (codes "p") [] ≡ codes "cache:" ++ trim_bytes (codes "p"))
unfolding trim_bytes is_empty
compose-isolates_example = compose-isolates first second (codes "p") [] (codes "aff:1") refl

-- A request with a secret and nothing else.
abbrev bearer : Text → Header
bearer secret name = if text_eq name (codes "Authorization") then codes "Bearer " ++ secret else []

-- Both secrets have the hash "h".
sticky_key-hides_secret_example :
    sticky_key_from_request (λ s. codes "h") (bearer (codes "a")) none
    ≡ sticky_key_from_request (λ s. codes "h") (bearer (codes "b")) none
unfolding token_of text_eq trim_bytes is_empty to_lower
sticky_key-hides_secret_example =
    sticky_key-hides_secret (λ s. codes "h") (bearer (codes "a")) (bearer (codes "b")) none
      (refl, (refl, (refl, (refl, (refl, tt))))) refl refl

-- A no-break space goes as a whole; a byte of its encoding by itself is no white space.
trim_bytes_test : trim_bytes (194 ∷ 160 ∷ 65 ∷ 160 ∷ 226 ∷ 128 ∷ 138 ∷ 32 ∷ []) ≡ 65 ∷ 160 ∷ []
unfolding trim_bytes
trim_bytes_test = refl
