-- ===== src/Common/Decimal/RoundTrip.antt =====
-- A printed number is read back, and what is read lies below the bound.
use elan.Common.{
  ℕ, zero, suc, ◌+◌, ◌-◌, ◌*◌, ◌/◌, ◌%◌, ◌≤◌, ◌<◌, ◌≡◌, ◌≢◌, [], ◌∷◌, Text, ok, All, refl, ◌∙◌,
  arith,
}
use elan.Common.Decimal.{digits_from, display_nat, scan, parse_below}

abbrev pub IsDigit : ℕ → Type 0
IsDigit c = (b'0' ≤ c) × (c ≤ b'9')

digits_from-IsDigit :
    (fuel n : ℕ) (out : Text) → All IsDigit out → All IsDigit (digits_from fuel n out)
unfolding digits_from
digits_from-IsDigit zero n out h = (omega arith, h)
digits_from-IsDigit (suc f) n out h =
    ground (arith, digits_from-IsDigit f (n / 10) ((b'0' + n % 10) ∷ out))

pub display_nat-IsDigit : (n : ℕ) → All IsDigit (display_nat n)
unfolding display_nat
display_nat-IsDigit n = digits_from-IsDigit n n [] tt

scan-digits_from :
    (bound fuel n : ℕ) (out : Text)
    → n < bound
    → n ≤ fuel
    → scan bound (digits_from fuel n out) 0 ≡ scan bound out n
unfolding scan digits_from
scan-digits_from bound zero n out h k = ground arith
scan-digits_from bound (suc f) n out h k =
    ground (arith, scan-digits_from bound f (n / 10) ((b'0' + n % 10) ∷ out))

parse_below-scan :
    (bound : ℕ) (s : Text) → All IsDigit s → s ≢ [] → parse_below bound s ≡ scan bound s 0
unfolding parse_below
parse_below-scan bound [] h k = absurd (k refl)
parse_below-scan bound (c ∷ s) h k = ground arith

digits_from-ne-nil : (fuel n : ℕ) (out : Text) → digits_from fuel n out ≢ []
unfolding digits_from
digits_from-ne-nil zero n out = cc
digits_from-ne-nil (suc f) n out =
    ground (arith, digits_from-ne-nil f (n / 10) ((b'0' + n % 10) ∷ out))

scan_nil : (bound n : ℕ) → scan bound [] n ≡ ok n
unfolding scan
scan_nil bound n = refl

pub parse_below-display_nat : (bound n : ℕ) → n < bound → parse_below bound (display_nat n) ≡ ok n
unfolding display_nat
parse_below-display_nat bound n h =
    parse_below-scan bound (digits_from n n []) (digits_from-IsDigit n n [] tt)
      (digits_from-ne-nil n n [])
    ∙ scan-digits_from bound n n [] h (omega arith)
    ∙ scan_nil bound n

scan-lt : (bound : ℕ) (s : Text) (n r : ℕ) → n < bound → scan bound s n ≡ ok r → r < bound
unfolding scan
scan-lt bound [] n r h e = ground arith
scan-lt bound (c ∷ s) n r h e = ground (arith, scan-lt bound s (n * 10 + (c - b'0')) r)

pub parse_below-lt :
    (bound : ℕ) (s : Text) (r : ℕ) → 0 < bound → parse_below bound s ≡ ok r → r < bound
unfolding parse_below
parse_below-lt bound [] r h e = cc
parse_below-lt bound (c ∷ []) r h e = ground (arith, scan-lt bound (c ∷ []) 0 r)
parse_below-lt bound (c ∷ d ∷ s) r h e =
    ground (arith, scan-lt bound (c ∷ d ∷ s) 0 r, scan-lt bound (d ∷ s) 0 r)
