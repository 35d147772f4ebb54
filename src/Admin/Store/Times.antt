-- ===== src/Admin/Store/Times.antt =====
-- The order in which SQL compares stored times: that of their texts in RFC 3339 with nanoseconds
-- (`formatTime`). Within one second the texts differ in the fraction, which has no trailing zeros.
use grok2api.Prelude.{
  ℕ, zero, suc, ◌+◌, ◌/◌, ◌%◌, ◌≡◌, Bool, true, false, not, ◌&&◌, [], ◌∷◌, ◌++◌, ◌==◌, ltb, ◌≤◌,
  ◌<◌, if◌then◌else◌, Text, codes, is_empty, text_lt, text_across, arith, Time, second,
}

unfoldable digits_of : ℕ → ℕ → Text
digits_of zero n = []
digits_of (suc k) n = digits_of k (n / 10) ++ (48 + n % 10) ∷ []

unfoldable strip_zeros : Text → Text
strip_zeros [] = []
strip_zeros (d ∷ ds) =
    let rest = strip_zeros ds in if is_empty rest && d == 48 then [] else d ∷ rest

-- What follows the seconds.
unfoldable fraction : ℕ → Text
unfolding digits_of strip_zeros is_empty
fraction nanoseconds =
    let ds = strip_zeros (digits_of 9 nanoseconds) in
    if is_empty ds then codes "Z" else codes "." ++ ds ++ codes "Z"

-- `a < b` in SQL; the zero time is the empty text.
unfoldable pub stored_lt : Time → Time → Bool
unfolding fraction text_lt
stored_lt a b =
    if b == 0
    then false
    else if a == 0
    then true
    else if a / second == b / second
    then text_lt (fraction (a % second)) (fraction (b % second))
    else ltb (a / second) (b / second)

-- `a >= b` in SQL
abbrev pub at_least : Time → Time → Bool
at_least a b = not (stored_lt a b)

lex_across :
    (x y z : ℕ) (p q r : Text)
    → (if y == x then text_lt q p else ltb y x) ≡ false
    → (if z == y then text_lt r q else ltb z y) ≡ false
    → (if z == x then text_lt r p else ltb z x) ≡ false
lex_across x y z p q r h k = ground (arith, text_across p q r)

zero_across :
    (a b c : ℕ) (l m n : Bool)
    → (l ≡ false → m ≡ false → n ≡ false)
    → (if a == 0 then false else if b == 0 then true else l) ≡ false
    → (if b == 0 then false else if c == 0 then true else m) ≡ false
    → (if a == 0 then false else if c == 0 then true else n) ≡ false
zero_across a b c l m n f h k = ground (arith, f)

-- A later bound keeps fewer.
pub stored_lt_across :
    (a b c : Time) → stored_lt b a ≡ false → stored_lt c b ≡ false → stored_lt c a ≡ false
unfolding stored_lt
stored_lt_across a b c = zero_across a b c _ _ _ (
    lex_across (a / second) (b / second) (c / second) (fraction (a % second))
      (fraction (b % second)) (fraction (c % second)))

-- A second makes the difference.
pub stored_lt-apart : (a b : Time) → b + second ≤ a → stored_lt a b ≡ false
unfolding stored_lt
stored_lt-apart a b h = let later : b / second < a / second = omega arith in ground arith
