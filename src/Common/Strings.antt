-- ===== src/Common/Strings.antt =====
-- Rust strings as the lists of their bytes, with the standard library's functions on them.
use Prim.Native.Nat.{ℕ, ◌+◌}
use Prim.Native.Char.{code}
use Prim.Native.String.{String}
use mathlib.Core.Path.{◌≡◌, refl, sym, ap, ◌∙◌}
use mathlib.Core.Logic.{◌↔◌}
use mathlib.Core.Bool.{Bool, true, false, ◌&&◌}
use mathlib.Core.Option.{Option, none, some}
use mathlib.Core.List.{List, [], ◌∷◌, ◌++◌, map, reverse, reverse-append, reverse-reverse}
use native.Mathlib.Omega.{arith}
use elan.Common.Tests.{leb, ◌==◌, if◌then◌else◌}
use elan.Common.Lists.{any}

-- The UTF-8 bytes of a `String` or `&str`.
abbrev pub Text : Type 0
Text = List ℕ

-- An ASCII literal of the source.
abbrev pub codes : String → Text
codes String.[] = []
codes (String.◌∷◌ c s) = code c ∷ codes s

abbrev pub text_eq : Text → Text → Bool
text_eq [] [] = true
text_eq [] (y ∷ ys) = false
text_eq (x ∷ xs) [] = false
text_eq (x ∷ xs) (y ∷ ys) = x == y && text_eq xs ys

pub text_eq_iff : (s t : Text) → (text_eq s t ≡ true) ↔ (s ≡ t)
text_eq_iff [] [] = ground arith
text_eq_iff [] (y ∷ ys) = ground arith
text_eq_iff (x ∷ xs) [] = ground arith
text_eq_iff (x ∷ xs) (y ∷ ys) = ground (arith, text_eq_iff xs ys)

pub text_eq_refl : (s : Text) → text_eq s s ≡ true
text_eq_refl s = (text_eq_iff s s).1 refl

-- `str::is_empty`
abbrev pub is_empty : Text → Bool
is_empty [] = true
is_empty (x ∷ xs) = false

-- `Vec::contains`
abbrev pub contains : List Text → Text → Bool
contains xs t = any (λ x. text_eq x t) xs

-- `str::strip_prefix`
abbrev pub strip_prefix : Text → Text → Option Text
strip_prefix s [] = some s
strip_prefix [] (p ∷ ps) = none
strip_prefix (c ∷ s) (p ∷ ps) = if c == p then strip_prefix s ps else none

abbrev reversed : Option Text → Option Text
reversed none = none
reversed (some t) = some (reverse t)

-- `str::strip_suffix`
unfoldable pub strip_suffix : Text → Text → Option Text
strip_suffix s suffix = reversed (strip_prefix (reverse s) (reverse suffix))

pub strip_prefix_iff : (s p r : Text) → (strip_prefix s p ≡ some r) ↔ (s ≡ p ++ r)
strip_prefix_iff s [] r = ground arith
strip_prefix_iff [] (q ∷ ps) r = ground arith
strip_prefix_iff (c ∷ s) (q ∷ ps) r = ground (arith, strip_prefix_iff s ps r)

strip_suffix_sound :
    (s q r : Text) (o : Option Text)
    → strip_prefix (reverse s) (reverse q) ≡ o
    → reversed o ≡ some r
    → s ≡ r ++ q
strip_suffix_sound s q r none e h = cc
strip_suffix_sound s q r (some t) e h =
    sym (reverse-reverse s)
    ∙ ap reverse ((strip_prefix_iff (reverse s) (reverse q) t).0 e)
    ∙ reverse-append (reverse q) t
    ∙ cc (reverse-reverse q)

-- A suffix is stripped exactly where the text ends in it.
pub strip_suffix_iff : (s q r : Text) → (strip_suffix s q ≡ some r) ↔ (s ≡ r ++ q)
unfolding strip_suffix
strip_suffix_iff s q r = (
  strip_suffix_sound s q r (strip_prefix (reverse s) (reverse q)) refl,
  λ e.
      let stripped : strip_prefix (reverse s) (reverse q) ≡ some (reverse r) =
        (strip_prefix_iff (reverse s) (reverse q) (reverse r)).1
          (ap reverse e ∙ reverse-append r q) in
      ap reversed stripped ∙ ap some (reverse-reverse r),
)

-- `u8::to_ascii_lowercase`
abbrev pub to_ascii_lowercase : ℕ → ℕ
to_ascii_lowercase c = if leb b'A' c && leb c b'Z' then c + 32 else c

-- `str::eq_ignore_ascii_case`
abbrev pub eq_ignore_ascii_case : Text → Text → Bool
eq_ignore_ascii_case s t = text_eq (map to_ascii_lowercase s) (map to_ascii_lowercase t)

-- `Option<String>::unwrap_or_default`
abbrev pub unwrap_or_default : Option Text → Text
unwrap_or_default none = []
unwrap_or_default (some t) = t

-- `if s.is_empty() { None } else { Some(s) }`
abbrev pub none_if_empty : Text → Option Text
none_if_empty [] = none
none_if_empty (c ∷ s) = some (c ∷ s)
