-- ===== src/Prelude/Bytes.antt =====
-- White space in a text that is given as the list of its UTF-8 bytes.
use Prim.Native.Nat.{ℕ, zero, suc, ◌-◌}
use mathlib.Core.List.{List, [], ◌∷◌, ◌++◌, map, reverse}
use grok2api.Prelude.Tests.{◌==◌, if◌then◌else◌}
use grok2api.Prelude.Lists.{length}
use grok2api.Prelude.Strings.{Text, has_prefix}

-- The encodings of the characters of `unicode.IsSpace`.
abbrev spaces : List Text
spaces =
    map (λ c. c ∷ []) (9 ∷ 10 ∷ 11 ∷ 12 ∷ 13 ∷ 32 ∷ [])
    ++ map (λ c. 194 ∷ c ∷ []) (133 ∷ 160 ∷ [])
    ++ map (λ c. 226 ∷ 128 ∷ c ∷ [])
        (128 ∷ 129 ∷ 130 ∷ 131 ∷ 132 ∷ 133 ∷ 134 ∷ 135 ∷ 136 ∷ 137 ∷ 138 ∷ 168 ∷ 169 ∷ 175 ∷ [])
    ++ (225 ∷ 154 ∷ 128 ∷ []) ∷ (226 ∷ 129 ∷ 159 ∷ []) ∷ (227 ∷ 128 ∷ 128 ∷ []) ∷ []

-- How many bytes the encoding has that a text begins with, 0 for none.
unfoldable width : List Text → Text → ℕ
unfolding has_prefix
width [] s = 0
width (p ∷ ps) s = let rest = width ps s in if has_prefix s p then length p else rest

-- `n` bytes are still to go, of a character that is white space.
unfoldable trim_from : List Text → ℕ → Text → Text
unfolding width
trim_from ps n [] = []
trim_from ps zero (c ∷ s) =
    let w = width ps (c ∷ s) in let rest = trim_from ps (w - 1) s in if w == 0 then c ∷ s else rest
trim_from ps (suc n) (c ∷ s) = trim_from ps n s

-- `strings.TrimSpace`, on bytes: from the right, the text and the encodings are read backwards.
unfoldable pub trim_bytes : Text → Text
unfolding trim_from
trim_bytes s = reverse (trim_from (map reverse spaces) 0 (reverse (trim_from spaces 0 s)))
