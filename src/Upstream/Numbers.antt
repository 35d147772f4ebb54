-- ===== src/Upstream/Numbers.antt =====
-- Decimal numbers in headers and messages: `strconv.ParseInt`, `headerInt64`, `ParseRetryAfter` and
-- the pattern `quotaPattern` of classifier.go.
use grok2api.Prelude.{
  ℕ, ◌+◌, ◌-◌, ◌*◌, ◌%◌, ◌^◌, Bool, true, false, ◌&&◌, ◌||◌, not, Option, none, some, [], ◌∷◌, ltb,
  leb, ◌==◌, if◌then◌else◌, Text, codes, is_empty, trim_space, lower_char, Time, second, ℤ, pos,
  negsuc, sub_time,
}

abbrev is_digit : ℕ → Bool
is_digit c = leb b'0' c && leb c b'9'

-- The longest prefix of digits, and the rest.
unfoldable pub span_digits : Text → Text × Text
span_digits [] = ([], [])
span_digits (c ∷ s) =
    let (ds, rest) = span_digits s in if is_digit c then (c ∷ ds, rest) else ([], c ∷ s)

unfoldable value_from : ℕ → Text → ℕ
value_from acc [] = acc
value_from acc (c ∷ s) = value_from (acc * 10 + (c - b'0')) s

abbrev max_int64 : ℕ
max_int64 = 9_223_372_036_854_775_807

-- `ParseInt(s, 10, 64)` of an unsigned text: its value, and whether it reports no error. Out of
-- range the value is the largest one.
unfoldable pub parse_digits : Text → ℕ × Bool
unfolding span_digits value_from
parse_digits s =
    let (ds, rest) = span_digits s in
    let n = value_from 0 ds in
    if is_empty ds || not (is_empty rest)
    then (0, false)
    else if ltb max_int64 n
    then (max_int64, false)
    else (n, true)

-- `headerInt64`, on the value of the header: the leading integer.
unfoldable pub header_int64 : Text → Option ℕ
unfolding parse_digits
header_int64 raw =
    let (ds, rest) = span_digits (trim_space raw) in
    let (n, fits) = parse_digits ds in if is_empty ds then none else if fits then some n else none

-- `ParseInt(s, 10, 64)` with its sign; `none` is an error.
unfoldable parse_signed : Bool → Text → Option ℤ
unfolding parse_digits
parse_signed negative ds =
    let (n, fits) = parse_digits ds in
    if negative
    then (if fits
        then some (if n == 0 then pos 0 else negsuc (n - 1))
        else if not (is_empty ds) && is_min ds
        then some (negsuc max_int64)
        else none)
    else if fits
    then some (pos n)
    else none
  where
    is_min : Text → Bool
    is_min ds =
        let (all, rest) = span_digits ds in is_empty rest && value_from 0 all == max_int64 + 1

unfoldable parse_int : Text → Option ℤ
unfolding parse_signed
parse_int [] = none
parse_int (c ∷ s) =
    if c == b'-'
    then parse_signed true s
    else if c == b'+'
    then parse_signed false s
    else parse_signed false (c ∷ s)

-- An `int64` product wraps.
unfoldable wrap64 : ℕ → ℤ
wrap64 n = let m = n % 2 ^ 64 in if leb m max_int64 then pos m else negsuc (2 ^ 64 - 1 - m)

-- `ParseRetryAfter`; `parse_time` is `http.ParseTime`, `wall` the present time.
unfoldable pub parse_retry_after : (Text → Option Time) → Time → Text → Time → ℤ
unfolding parse_int wrap64
parse_retry_after parse_time wall raw now =
    let s = trim_space raw in if is_empty s then pos 0 else by_seconds (parse_int s) s
  where
    by_date : Option Time → ℤ
    by_date none = pos 0
    by_date (some at) = pos (sub_time at (if now == 0 then wall else now))

    by_seconds : Option ℤ → Text → ℤ
    by_seconds (some (pos n)) s = if n == 0 then pos 0 else wrap64 (n * second)
    by_seconds (some (negsuc n)) s = pos 0
    by_seconds none s = by_date (parse_time s)

-- `\s` of a pattern
abbrev is_blank : ℕ → Bool
is_blank c = c == 9 || c == 10 || c == 12 || c == 13 || c == 32

unfoldable skip_blanks : Text → Text
skip_blanks [] = []
skip_blanks (c ∷ s) = if is_blank c then skip_blanks s else c ∷ s

-- What follows a literal that is matched without regard to case.
unfoldable after_folded : Text → Text → Option Text
after_folded [] s = some s
after_folded (p ∷ ps) [] = none
after_folded (p ∷ ps) (c ∷ s) = if lower_char c == p then after_folded ps s else none

-- `\)?`
unfoldable skip_paren : Text → Text
skip_paren [] = []
skip_paren (c ∷ s) = if c == b')' then s else c ∷ s

unfoldable after_char : ℕ → Text → Option Text
after_char p [] = none
after_char p (c ∷ s) = if c == p then some s else none

-- The two numbers, once the text before the colon is matched.
unfoldable match_numbers : Text → Option (ℕ × ℕ)
unfolding span_digits after_char skip_blanks parse_digits
match_numbers s = after_colon (after_char b':' s)
  where
    limit : Text → Option Text → Option (ℕ × ℕ)
    limit actual none = none
    limit actual (some s) =
        let (ds, rest) = span_digits (skip_blanks s) in
        if is_empty ds then none else some ((parse_digits actual).0, (parse_digits ds).0)

    after_colon : Option Text → Option (ℕ × ℕ)
    after_colon none = none
    after_colon (some s) =
        let (ds, rest) = span_digits (skip_blanks s) in
        if is_empty ds then none else limit ds (after_char b'/' (skip_blanks rest))

unfoldable match_here : Text → Option (ℕ × ℕ)
unfolding after_folded skip_paren match_numbers
match_here s = after_word (after_folded (codes "actual/limit") s)
  where
    after_word : Option Text → Option (ℕ × ℕ)
    after_word none = none
    after_word (some s) = match_numbers (skip_paren s)

-- `quotaPattern.FindStringSubmatch`: the leftmost match.
unfoldable pub find_quota : Text → Option (ℕ × ℕ)
unfolding match_here
find_quota [] = none
find_quota (c ∷ s) = first (match_here (c ∷ s)) (find_quota s)
  where
    first : Option (ℕ × ℕ) → Option (ℕ × ℕ) → Option (ℕ × ℕ)
    first none rest = rest
    first (some m) rest = some m
