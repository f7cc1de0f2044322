-- ===== src/Common/Membership.antt =====
-- Membership in mapped and filtered lists.
use mathlib.Core.List.Memᴰ
use elan.Common.{
  ◌∙◌, ap, Option, some, ◌++◌, find, any, false, filter_map, Option-cases, Result, ok, collect,
  arith, >>=-eq-ok, ◌≡◌, refl, subst, sym, Bool, true, List, [], ◌∷◌, Memᴰ, inl, inr, All, filter,
  Bool-cases, map,
}

module _ {ℓ} {A : Type ℓ} where
  pub mem_of_filter :
      (p : A → Bool) (x : A) (xs : List A) → Memᴰ x (filter p xs) → Memᴰ x xs × (p x ≡ true)
  mem_of_filter p x [] m = elim m [ ]
  mem_of_filter p x (y ∷ ys) m = elim (Bool-cases (p y)) [
    | inl kept ↦ elim (Memᴰ.cases_cons (rw kept at m)) [
      | inl e ↦ (Memᴰ.head e, rw e kept)
      | inr t ↦ let (here, h) = mem_of_filter p x ys t in (Memᴰ.tail here, h)
    ]
    | inr dropped ↦ let (here, h) = mem_of_filter p x ys (rw dropped at m) in (Memᴰ.tail here, h)
  ]

  pub mem-filter :
      (p : A → Bool) {x : A} {xs : List A} → Memᴰ x xs → p x ≡ true → Memᴰ x (filter p xs)
  mem-filter p {x} (Memᴰ.head {x = y} e) h = rw (← e, h) (Memᴰ.head refl)
  mem-filter p {x} (Memᴰ.tail {x = y} m) h = elim (Bool-cases (p y)) [
    | inl kept ↦ rw kept (Memᴰ.tail (mem-filter p m h))
    | inr dropped ↦ rw dropped (mem-filter p m h)
  ]

  pub All_of_mem {κ} : (P : A → Type κ) {x : A} {xs : List A} → All P xs → Memᴰ x xs → P x
  All_of_mem P h (Memᴰ.head e) = subst P (sym e) h.0
  All_of_mem P h (Memᴰ.tail m) = All_of_mem P h.1 m

  pub All-of_forall {κ} : (P : A → Type κ) (xs : List A) → ((x : A) → Memᴰ x xs → P x) → All P xs
  All-of_forall P [] h = tt
  All-of_forall P (x ∷ xs) h = (h x (Memᴰ.head refl), All-of_forall P xs (λ y m. h y (Memᴰ.tail m)))

module _ {ℓ} {A : Type ℓ} where
  pub find-append_left :
      (q : A → Bool) (xs ys : List A) (r : A) → find q xs ≡ some r → find q (xs ++ ys) ≡ some r
  find-append_left q [] ys r h = cc
  find-append_left q (x ∷ xs) ys r h = ground (arith, find-append_left q xs ys r)

  pub find-append_right :
      (q : A → Bool) (xs ys : List A) → any q xs ≡ false → find q (xs ++ ys) ≡ find q ys
  find-append_right q [] ys h = refl
  find-append_right q (x ∷ xs) ys h = ground (arith, find-append_right q xs ys)

  pub mem_of_find :
      (q : A → Bool) (xs : List A) (r : A) → find q xs ≡ some r → Memᴰ r xs × (q r ≡ true)
  mem_of_find q [] r h = cc
  mem_of_find q (x ∷ xs) r h = elim (Bool-cases (q x)) [
    | inl here ↦
        let found : some x ≡ some r = rw here at h in
        let same : x ≡ r = cc in (Memᴰ.head (sym same), rw (← same) here)
    | inr there ↦ let (m, e) = mem_of_find q xs r (rw there at h) in (Memᴰ.tail m, e)
  ]

  pub any_of_mem : (q : A → Bool) {x : A} {xs : List A} → Memᴰ x xs → q x ≡ true → any q xs ≡ true
  any_of_mem q (Memᴰ.head {x = y} {xs = ys} e) h = rw (← e, h) refl
  any_of_mem q (Memᴰ.tail {x = y} {xs = ys} m) h = ground (arith, any_of_mem q m h)

module _ {ℓ κ} {A : Type ℓ} {B : Type κ} (f : A → B) where
  pub mem-map : {x : A} {xs : List A} → Memᴰ x xs → Memᴰ (f x) (map f xs)
  mem-map (Memᴰ.head e) = Memᴰ.head (ap f e)
  mem-map (Memᴰ.tail m) = Memᴰ.tail (mem-map m)

  pub mem_of_map : (y : B) (xs : List A) → Memᴰ y (map f xs) → (x : A) × Memᴰ x xs × (y ≡ f x)
  mem_of_map y [] m = elim m [ ]
  mem_of_map y (x ∷ xs) m = elim (Memᴰ.cases_cons m) [
    | inl e ↦ (x, Memᴰ.head refl, e)
    | inr t ↦ let (z, here, e) = mem_of_map y xs t in (z, Memᴰ.tail here, e)
  ]

module _ {ℓ κ} {A : Type ℓ} {B : Type κ} (f : A → Option B) where
  pub mem_of_filter_map :
      (y : B) (xs : List A) → Memᴰ y (filter_map f xs) → (x : A) × Memᴰ x xs × (f x ≡ some y)
  mem_of_filter_map y [] m = elim m [ ]
  mem_of_filter_map y (x ∷ xs) m = elim (Option-cases (f x)) [
    | inl e ↦
        let (a, here, h) = mem_of_filter_map y xs (rw (e, filter_map) at m) in
        (a, Memᴰ.tail here, h)
    | inr (z, e) ↦ elim (Memᴰ.cases_cons (rw (e, filter_map) at m)) [
      | inl same ↦ (x, Memᴰ.head refl, e ∙ ap some (sym same))
      | inr t ↦ let (a, here, h) = mem_of_filter_map y xs t in (a, Memᴰ.tail here, h)
    ]
  ]

  pub mem-filter_map :
      (y : B) {x : A} {xs : List A} → Memᴰ x xs → f x ≡ some y → Memᴰ y (filter_map f xs)
  mem-filter_map y {x} (Memᴰ.head {x = z} {xs = zs} e) h =
      let h' : f z ≡ some y = ap f (sym e) ∙ h in rw (h', filter_map) (Memᴰ.head refl)
  mem-filter_map y {x} (Memᴰ.tail {x = z} {xs = zs} m) h = elim (Option-cases (f z)) [
    | inl e ↦ rw (e, filter_map) (mem-filter_map y m h)
    | inr (w, e) ↦ rw (e, filter_map) (Memᴰ.tail (mem-filter_map y m h))
  ]

  pub filter_map_congr :
      (g : A → Option B) (xs : List A)
      → ((x : A) → Memᴰ x xs → f x ≡ g x)
      → filter_map f xs ≡ filter_map g xs
  filter_map_congr g [] h = refl
  filter_map_congr g (x ∷ xs) h =
      ground (arith, h x (Memᴰ.head refl), filter_map_congr g xs (λ y m. h y (Memᴰ.tail m)))

module _ {E A B : Type 0} (f : A → Result E B) where
  pub collect_total :
      (xs : List A)
      → ((x : A) → Memᴰ x xs → (y : B) × (f x ≡ ok y))
      → (ys : List B) × (collect f xs ≡ ok ys)
  collect_total [] h = ([], refl)
  collect_total (x ∷ xs) h =
      let (y, e) = h x (Memᴰ.head refl) in
      let (ys, e') = collect_total xs (λ z m. h z (Memᴰ.tail m)) in (y ∷ ys, rw (e, e') refl)

  mem-collect_cons :
      (x : A) (xs : List A) (ys : List B)
      → collect f (x ∷ xs) ≡ ok ys
      → (z : B) × (zs : List B) × (f x ≡ ok z) × (collect f xs ≡ ok zs) × (ys ≡ z ∷ zs)
  mem-collect_cons x xs ys e =
      let (z, ez, e') = >>=-eq-ok (f x) _ e in
      let (zs, ezs, e'') = >>=-eq-ok (collect f xs) _ e' in (z, zs, ez, ezs, cc)

  pub mem-collect :
      {x : A} (ys : List B) {xs : List A} (y : B)
      → collect f xs ≡ ok ys
      → Memᴰ x xs
      → f x ≡ ok y
      → Memᴰ y ys
  mem-collect {x} ys y e (Memᴰ.head {x = a} {xs = as'} same) h =
      let (z, zs, ez, ezs, q) = mem-collect_cons a as' ys e in
      let fx : f a ≡ ok y = ap f (sym same) ∙ h in rw q (Memᴰ.head (cc))
  mem-collect {x} ys y e (Memᴰ.tail {x = a} {xs = as'} m) h =
      let (z, zs, ez, ezs, q) = mem-collect_cons a as' ys e in
      rw q (Memᴰ.tail (mem-collect zs y ezs m h))

  pub mem_of_collect :
      (xs : List A) (ys : List B) (y : B)
      → collect f xs ≡ ok ys
      → Memᴰ y ys
      → (x : A) × Memᴰ x xs × (f x ≡ ok y)
  mem_of_collect [] ys y e m = let q : ys ≡ [] = cc in absurd (Memᴰ.not-nil (rw q at m))
  mem_of_collect (x ∷ xs) ys y e m =
      let (z, zs, ez, ezs, q) = mem-collect_cons x xs ys e in
      elim (Memᴰ.cases_cons (rw q at m)) [
        | inl same ↦ (x, Memᴰ.head refl, ez ∙ ap ok (sym same))
        | inr t ↦ let (a, here, h) = mem_of_collect xs zs y ezs t in (a, Memᴰ.tail here, h)
      ]
