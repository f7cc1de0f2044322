-- ===== src/Common/Signed.antt =====
-- Signed machine integers: an `i32` or `i64` as an integer, with the wrap of `as i32` written out.
use Prim.Native.Nat.{compare, Ordering}
use elan.Common.{Bool, false, ◌==◌, ℕ, ◌-◌, ◌%◌, ◌^◌, ◌≤◌, ◌<◌, ◌≡◌, arith, ltb, if◌then◌else◌}

-- `negsuc n` is -(n + 1).
pub data ℤ : Type 0 where
  pos : ℕ → ℤ
  negsuc : ℕ → ℤ

-- `i32::cmp`
abbrev pub cmp : ℤ → ℤ → Ordering
cmp (pos a) (pos b) = compare a b
cmp (pos a) (negsuc b) = Ordering.gt
cmp (negsuc a) (pos b) = Ordering.lt
cmp (negsuc a) (negsuc b) = compare b a

infix 50 ◌≤ℤ◌
abbrev pub ◌≤ℤ◌ : ℤ → ℤ → Type 0
pos a ≤ℤ pos b = a ≤ b
pos a ≤ℤ negsuc b = ⊥
negsuc a ≤ℤ pos b = Unit
negsuc a ≤ℤ negsuc b = b ≤ a

-- `x as i32` of an `i64`: the low 32 bits, read as a signed number.
pub as_i32 : ℤ → ℤ
as_i32 (pos n) = let m = n % 2 ^ 32 in if ltb m (2 ^ 31) then pos m else negsuc (2 ^ 32 - 1 - m)
as_i32 (negsuc n) = let m = n % 2 ^ 32 in if ltb m (2 ^ 31) then negsuc m else pos (2 ^ 32 - 1 - m)

abbrev pub InI32 : ℤ → Type 0
InI32 (pos n) = n < 2 ^ 31
InI32 (negsuc n) = n < 2 ^ 31

pub as_i32_of_InI32 : (z : ℤ) → InI32 z → as_i32 z ≡ z
unfolding as_i32
as_i32_of_InI32 (pos n) h = ground arith
as_i32_of_InI32 (negsuc n) h = ground arith

-- `x == 1`
abbrev pub is_one : ℤ → Bool
is_one (pos n) = n == 1
is_one (negsuc n) = false
