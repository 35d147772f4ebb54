-- ===== src/Gateway/Payload.antt =====
-- What the gateway reads out of a payload without decoding it (gateway.go, `modelFromPayload`,
-- `operationFromPath`, `extractBodyUsage`).
use grok2api.Prelude.{
  ℕ, ◌+◌, Bool, ◌&&◌, ◌||◌, Option, none, some, [], ◌∷◌, ◌++◌, ltb, ◌==◌, if◌then◌else◌, Text,
  codes, trim_space, to_lower, has_prefix, contains, length, drop,
}
use grok2api.Upstream.Numbers.{span_digits, parse_digits}

-- What follows the first occurrence of a text (`strings.Index`).
unfoldable after_first : Text → Text → Option Text
after_first needle [] = if has_prefix [] needle then some [] else none
after_first needle (c ∷ s) =
    if has_prefix (c ∷ s) needle then some (drop (length needle) (c ∷ s)) else after_first needle s

-- `rest[:strings.IndexByte(rest, c)]`
unfoldable before_char : ℕ → Text → Option Text
before_char p [] = none
before_char p (c ∷ s) = if c == p then some [] else prepend c (before_char p s)
  where
    prepend : ℕ → Option Text → Option Text
    prepend c none = none
    prepend c (some s) = some (c ∷ s)

-- `strings.HasPrefix` of one character, and what follows it.
unfoldable strip_char : ℕ → Text → Option Text
strip_char p [] = none
strip_char p (c ∷ s) = if c == p then some s else none

abbrev or_blank : Option Text → Text
or_blank none = codes ""
or_blank (some s) = trim_space s

abbrev then_text : Option Text → (Text → Option Text) → Option Text
then_text none f = none
then_text (some s) f = f s

-- `modelFromPayload`
unfoldable model_from_payload : Text → Text
unfolding after_first before_char strip_char
model_from_payload payload = or_blank (
    then_text (after_first (codes "\"model\"") payload) (λ a.
      then_text (strip_char b':' (trim_space a))
        (λ b. then_text (strip_char b'"' (trim_space b)) (before_char b'"'))))

-- `operationFromPath`
unfoldable operation_from_path : Text → Text → Text
operation_from_path method raw =
    let path = to_lower (trim_space raw) in
    if contains path (codes "chat/completions")
    then codes "chat"
    else if contains path (codes "/responses")
    then codes "responses"
    else if contains path (codes "/messages")
    then codes "messages"
    else if contains path (codes "/models")
    then codes "models"
    else if contains path (codes "/billing")
    then codes "billing"
    else to_lower method ++ codes " " ++ path

-- What follows the last occurrence of a text that does not stand at the very end.
unfoldable after_last : Text → Text → Option Text
after_last needle [] = none
after_last needle (c ∷ s) = later (after_last needle s) (
    if has_prefix (c ∷ s) needle && ltb (length needle) (length (c ∷ s))
    then some (drop (length needle) (c ∷ s))
    else none)
  where
    later : Option Text → Option Text → Option Text
    later none here = here
    later (some s) here = some s

abbrev is_separator : ℕ → Bool
is_separator c = c == b':' || c == b' ' || c == 9

unfoldable skip_separators : Text → Text
skip_separators [] = []
skip_separators (c ∷ s) = if is_separator c then skip_separators s else c ∷ s

abbrev leading_int : Option Text → ℕ
leading_int none = 0
leading_int (some s) = (parse_digits (span_digits (skip_separators s)).0).0

-- `lastInt`
unfoldable last_int : Text → Text → ℕ
unfolding after_last skip_separators
last_int key raw = leading_int (after_last (codes "\"" ++ key ++ codes "\"") raw)

abbrev or_next : ℕ → ℕ → ℕ
or_next n m = if n == 0 then m else n

-- `extractBodyUsage`: input, cached, output and total tokens.
unfoldable extract_body_usage : Text → ℕ × ℕ × ℕ × ℕ
extract_body_usage raw =
    let input =
      or_next (last_int (codes "input_tokens") raw) (last_int (codes "prompt_tokens") raw) in
    let cached = or_next (last_int (codes "cached_tokens") raw) (
      or_next (last_int (codes "cache_read_input_tokens") raw)
        (last_int (codes "cached_input_tokens") raw)) in
    let output =
      or_next (last_int (codes "output_tokens") raw) (last_int (codes "completion_tokens") raw) in
    let total = last_int (codes "total_tokens") raw in
    (input, cached, output, if total == 0 then input + output else total)
