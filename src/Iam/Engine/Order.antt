-- ===== src/Iam/Engine/Order.antt =====
-- The order in which matching policies are sorted: total, transitive, and Deny before Allow.
use elan.Common.{◌≡◌, ◌↔◌, true, false, ◌⊎◌, inl, inr, arith}
use elan.Common.Signed.{ℤ, pos, negsuc, cmp, ◌≤ℤ◌}
use elan.Common.Sorting.{not_after}
use elan.Iam.Types.{PolicyEffect, Policy}
use elan.Iam.Engine.{before}

-- `a` beats `b`: it denies where `b` allows, or has its effect and no lower priority.
abbrev pub Beats : Policy → Policy → Type 0
Beats a b =
    ((a.effect ≡ PolicyEffect.deny) × (b.effect ≡ PolicyEffect.allow))
    ⊎ ((a.effect ≡ b.effect) × (b.priority ≤ℤ a.priority))

not_after-cmp : (x y : ℤ) → (not_after (cmp x y) ≡ true) ↔ (x ≤ℤ y)
not_after-cmp (pos a) (pos b) = ground arith
not_after-cmp (pos a) (negsuc b) = ground arith
not_after-cmp (negsuc a) (pos b) = ground arith
not_after-cmp (negsuc a) (negsuc b) = ground arith

≤ℤ_trans : (x y z : ℤ) → x ≤ℤ y → y ≤ℤ z → x ≤ℤ z
≤ℤ_trans (pos a) (pos b) (pos c) h k = omega arith
≤ℤ_trans (negsuc a) (pos b) (pos c) h k = tt
≤ℤ_trans (negsuc a) (negsuc b) (pos c) h k = tt
≤ℤ_trans (negsuc a) (negsuc b) (negsuc c) h k = omega arith
≤ℤ_trans (pos a) (pos b) (negsuc c) h k = absurd k
≤ℤ_trans (pos a) (negsuc b) z h k = absurd h
≤ℤ_trans (negsuc a) (pos b) (negsuc c) h k = absurd k

≤ℤ_total : (x y : ℤ) → (x ≤ℤ y) ⊎ (y ≤ℤ x)
≤ℤ_total (pos a) (pos b) = grind arith
≤ℤ_total (pos a) (negsuc b) = inr tt
≤ℤ_total (negsuc a) (pos b) = inl tt
≤ℤ_total (negsuc a) (negsuc b) = grind arith

pub before_iff : (a b : Policy) → (before a b ≡ true) ↔ Beats a b
unfolding before
before_iff a b = ground (arith, not_after-cmp b.priority a.priority)

pub before_total : (a b : Policy) → before a b ≡ false → before b a ≡ true
before_total a b h = ground (arith, before_iff a b, before_iff b a, ≤ℤ_total a.priority b.priority)

pub before_trans : (a b c : Policy) → before a b ≡ true → before b c ≡ true → before a c ≡ true
before_trans a b c h k = ground (
  arith,
  before_iff a b,
  before_iff b c,
  before_iff a c,
  ≤ℤ_trans c.priority b.priority a.priority,
)
