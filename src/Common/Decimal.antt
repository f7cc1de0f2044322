-- ===== src/Common/Decimal.antt =====
-- `Display` and `FromStr` of the unsigned machine integers: decimal print and parse.
pub mod RoundTrip
use elan.Common.{
  ℕ, zero, suc, ◌+◌, ◌-◌, ◌*◌, ◌/◌, ◌%◌, ◌++◌, [], ◌∷◌, Text, codes, Result, ok, err, Bool, ◌||◌,
  ltb, ◌==◌, if◌then◌else◌,
}

pub data ParseIntError : Type 0 where
  empty invalid_digit pos_overflow : ParseIntError

-- `Display for ParseIntError`
abbrev pub error_text : ParseIntError → Text
error_text empty = codes "cannot parse integer from empty string"
error_text invalid_digit = codes "invalid digit found in string"
error_text pos_overflow = codes "number too large to fit in target type"

digits_from : ℕ → ℕ → Text → Text
digits_from zero n out = (b'0' + n % 10) ∷ out
digits_from (suc fuel) n out =
    let more = digits_from fuel (n / 10) ((b'0' + n % 10) ∷ out) in
    if ltb n 10 then (b'0' + n) ∷ out else more

-- `format!("{n}")`; a number has no more digits than its value has units.
unfoldable pub display_nat : ℕ → Text
unfolding digits_from
display_nat n = digits_from n n []

scan : ℕ → Text → ℕ → Result ParseIntError ℕ
scan bound [] n = ok n
scan bound (c ∷ s) n =
    if ltb c b'0' || ltb b'9' c
    then err invalid_digit
    else if ltb (n * 10 + (c - b'0')) bound
    then scan bound s (n * 10 + (c - b'0'))
    else err pos_overflow

skip_plus : ℕ → Text → Result ParseIntError ℕ
skip_plus bound [] = err invalid_digit
skip_plus bound (c ∷ s) = scan bound (c ∷ s) 0

-- `s.parse::<uN>()` with `bound` = 2^N: a leading `+` is skipped if something follows it.
unfoldable pub parse_below : ℕ → Text → Result ParseIntError ℕ
unfolding scan skip_plus
parse_below bound [] = err empty
parse_below bound (c ∷ s) = if c == b'+' then skip_plus bound s else scan bound (c ∷ s) 0
