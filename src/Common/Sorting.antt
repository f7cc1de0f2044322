-- ===== src/Common/Sorting.antt =====
-- The standard library's `sort_by`, a stable sort by a comparison.
use Prim.Native.Nat.{Ordering}
use mathlib.Core.List.Memᴰ
use elan.Common.{
  ◌≡◌, refl, subst, ap, ◌∙◌, Bool, true, false, Option, none, some, List, [], ◌∷◌, Memᴰ, ◌⊎◌, inl,
  inr, first, All, arith, Bool-cases, if◌then◌else◌,
}

-- `Ordering::then`
abbrev pub then_with : Ordering → Ordering → Ordering
then_with Ordering.lt o = Ordering.lt
then_with Ordering.eq o = o
then_with Ordering.gt o = Ordering.gt

abbrev pub reverse_ord : Ordering → Ordering
reverse_ord Ordering.lt = Ordering.gt
reverse_ord Ordering.eq = Ordering.eq
reverse_ord Ordering.gt = Ordering.lt

-- `a` may stand before `b`.
abbrev pub not_after : Ordering → Bool
not_after Ordering.gt = false
not_after _ = true

module _ {A : Type 0} (le : A → A → Bool) where
  abbrev pub insert_by : A → List A → List A
  insert_by x [] = x ∷ []
  insert_by x (y ∷ ys) = if le x y then x ∷ y ∷ ys else y ∷ insert_by x ys

  -- Equal elements keep their order, since each is inserted before those that follow it.
  abbrev pub sort_by : List A → List A
  sort_by [] = []
  sort_by (x ∷ xs) = insert_by x (sort_by xs)

  abbrev pick : A → Option A → A
  pick x none = x
  pick x (some y) = if le x y then x else y

  -- The leftmost of the least elements.
  abbrev pub least : List A → Option A
  least [] = none
  least (x ∷ xs) = some (pick x (least xs))

  first-insert_by : (x : A) (ys : List A) → first (insert_by x ys) ≡ some (pick x (first ys))
  first-insert_by x [] = refl
  first-insert_by x (y ∷ ys) = ground arith

  pub first-sort_by : (xs : List A) → first (sort_by xs) ≡ least xs
  first-sort_by [] = refl
  first-sort_by (x ∷ xs) =
      first-insert_by x (sort_by xs) ∙ ap (λ o. some (pick x o)) (first-sort_by xs)

  mem-insert_by : (x y : A) (ys : List A) → (x ≡ y) ⊎ Memᴰ x ys → Memᴰ x (insert_by y ys)
  mem-insert_by x y [] (inl e) = Memᴰ.head e
  mem-insert_by x y [] (inr m) = elim m [ ]
  mem-insert_by x y (z ∷ zs) h = elim (Bool-cases (le y z)) [
    | inl lower ↦ rw lower (elim h [ inl e ↦ Memᴰ.head e | inr m ↦ Memᴰ.tail m ])
    | inr higher ↦ rw higher (elim h [
      | inl e ↦ Memᴰ.tail (mem-insert_by x y zs (inl e))
      | inr m ↦ elim (Memᴰ.cases_cons m) [
        | inl e ↦ Memᴰ.head e
        | inr t ↦ Memᴰ.tail (mem-insert_by x y zs (inr t))
      ]
    ])
  ]

  mem_of_insert_by : (x y : A) (ys : List A) → Memᴰ x (insert_by y ys) → (x ≡ y) ⊎ Memᴰ x ys
  mem_of_insert_by x y [] m = elim (Memᴰ.cases_cons m) [ inl e ↦ inl e | inr t ↦ inr t ]
  mem_of_insert_by x y (z ∷ zs) m = elim (Bool-cases (le y z)) [
    | inl lower ↦ Memᴰ.cases_cons (rw lower at m)
    | inr higher ↦ elim (Memᴰ.cases_cons (rw higher at m)) [
      | inl e ↦ inr (Memᴰ.head e)
      | inr t ↦ elim (mem_of_insert_by x y zs t) [ inl e ↦ inl e | inr n ↦ inr (Memᴰ.tail n) ]
    ]
  ]

  pub mem-sort_by : {x : A} {xs : List A} → Memᴰ x xs → Memᴰ x (sort_by xs)
  mem-sort_by {x} (Memᴰ.head {x = y} {xs = ys} e) = mem-insert_by x y (sort_by ys) (inl e)
  mem-sort_by {x} (Memᴰ.tail {x = y} {xs = ys} m) =
      mem-insert_by x y (sort_by ys) (inr (mem-sort_by m))

  pub mem_of_sort_by : (x : A) (xs : List A) → Memᴰ x (sort_by xs) → Memᴰ x xs
  mem_of_sort_by x [] m = m
  mem_of_sort_by x (y ∷ ys) m = elim (mem_of_insert_by x y (sort_by ys) m) [
    | inl e ↦ Memᴰ.head e
    | inr n ↦ Memᴰ.tail (mem_of_sort_by x ys n)
  ]

  mem_of_pick :
      (x y : A) (ys : List A) (o : Option A)
      → ((z : A) → o ≡ some z → Memᴰ z ys)
      → some (pick y o) ≡ some x
      → Memᴰ x (y ∷ ys)
  mem_of_pick x y ys none below h = Memᴰ.head (cc)
  mem_of_pick x y ys (some z) below h = elim (Bool-cases (le y z)) [
    | inl lower ↦ Memᴰ.head (ground arith)
    | inr higher ↦ Memᴰ.tail (below x (ground arith))
  ]

  pub mem_of_least : (x : A) (xs : List A) → least xs ≡ some x → Memᴰ x xs
  mem_of_least x [] h = cc
  mem_of_least x (y ∷ ys) h = mem_of_pick x y ys (least ys) (λ z. mem_of_least z ys) h

  pub least-eq-none : (xs : List A) → least xs ≡ none → xs ≡ []
  least-eq-none [] e = refl
  least-eq-none (x ∷ xs) e = cc

  -- With a total and transitive comparison the least element is below all others.
  module _ (total : (x y : A) → le x y ≡ false → le y x ≡ true)
      (trans : (x y z : A) → le x y ≡ true → le y z ≡ true → le x z ≡ true) where
    le_refl : (x : A) → le x x ≡ true
    le_refl x = elim (Bool-cases (le x x)) [ inl e ↦ e | inr e ↦ total x x e ]

    abbrev IsBelow : List A → A → Type 0
    IsBelow ys x = All (λ y. le x y ≡ true) ys

    IsBelow-trans : (x y : A) (ys : List A) → le x y ≡ true → IsBelow ys y → IsBelow ys x
    IsBelow-trans x y [] h k = tt
    IsBelow-trans x y (z ∷ zs) h (k, ks) = (trans x y z h k, IsBelow-trans x y zs h ks)

    IsBelow-pick :
        (x y : A) (ys : List A) (o : Option A)
        → (o ≡ none → ys ≡ [])
        → ((z : A) → o ≡ some z → IsBelow ys z)
        → some (pick y o) ≡ some x
        → IsBelow (y ∷ ys) x
    IsBelow-pick x y ys none empty below h =
        rw (empty refl) (subst (λ w. IsBelow (y ∷ []) w) (cc) (le_refl y, tt))
    IsBelow-pick x y ys (some z) empty below h = elim (Bool-cases (le y z)) [
      | inl lower ↦
          subst (IsBelow (y ∷ ys)) (ground arith)
            (le_refl y, IsBelow-trans y z ys lower (below z refl))
      | inr higher ↦ subst (IsBelow (y ∷ ys)) (ground arith) (total y z higher, below z refl)
    ]

    pub least-le : (x : A) (xs : List A) → least xs ≡ some x → IsBelow xs x
    least-le x [] h = tt
    least-le x (y ∷ ys) h = IsBelow-pick x y ys (least ys) (least-eq-none ys) (λ z. least-le z ys) h
