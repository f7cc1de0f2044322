-- ===== src/Central/CatalogStore/Others.antt =====
-- What the registration of a dataset leaves alone.
use mathlib.Core.List.Memᴰ
use elan.Common.{
  ◌≡◌, refl, ap, ◌∙◌, subst, ◌++◌, [], ◌∷◌, List, Memᴰ, Bool, true, false, ◌&&◌, some, Text, ◌⊎◌,
  inl, inr, find, any, ok, arith, Bool-cases, text_eq_iff, if◌then◌else◌,
}
use elan.Common.External.{Uuid, UuidCodec, Serde}
use elan.Central.CatalogStore.{
  DatasetRow, CatalogStore, Setup, update, is_coordinator, has_key, refreshed, insert_or_update,
  is_shown, transposed, get_dataset,
}
use elan.Central.CatalogStore.Writes.{insert_or_update-stored}

module _ {A : Type 0} (k q : A → Bool) (f : A → A) where
  find-update_other :
      (xs : List A)
      → ((y : A) → k y ≡ true → (q y ≡ false) × (q (f y) ≡ false))
      → find q (update k f xs) ≡ find q xs
  find-update_other [] apart = refl
  find-update_other (x ∷ xs) apart = elim (Bool-cases (k x)) [
    | inl hit ↦
        let (before, after) = apart x hit in rw (hit, before, after) (find-update_other xs apart)
    | inr miss ↦ rw miss (ap (λ o. if q x then some x else o) (find-update_other xs apart))
  ]

  find-append_other : (xs : List A) (x : A) → q x ≡ false → find q (xs ++ x ∷ []) ≡ find q xs
  find-append_other [] x h = rw h refl
  find-append_other (y ∷ ys) x h = ap (λ o. if q y then some y else o) (find-append_other ys x h)

  mem_of_update :
      (y : A) (xs : List A) → Memᴰ y (update k f xs) → (x : A) × Memᴰ x xs × ((y ≡ x) ⊎ (y ≡ f x))
  mem_of_update y [] m = absurd (Memᴰ.not-nil m)
  mem_of_update y (x ∷ xs) m = elim (Memᴰ.cases_cons m) [
    | inl e ↦ (
      x,
      Memᴰ.head refl,
      elim (Bool-cases (k x)) [ inl hit ↦ inr (rw hit at e) | inr miss ↦ inl (rw miss at e) ],
    )
    | inr t ↦ let (z, here, same) = mem_of_update y xs t in (z, Memᴰ.tail here, same)
  ]

-- All rows have identifiers that can be read.
abbrev pub AreReadable : UuidCodec → List DatasetRow → Type 0
AreReadable uuids ds = (d : DatasetRow) → Memᴰ d ds → (w : Uuid) × (uuids.parse_str d.id ≡ some w)

module _ (uuids : UuidCodec) (serde : Serde) (db : Setup) (row : DatasetRow) (s : CatalogStore)
    (known : any (is_coordinator row.coordinator_id) s.coordinators ≡ true)
    (stored : (insert_or_update db row s).0 ≡ ok tt) where
  pub coordinators_kept : (insert_or_update db row s).1.coordinators ≡ s.coordinators
  coordinators_kept = elim (insert_or_update-stored db row s known stored) [
    | inl (taken, e) ↦ ap (λ (t : CatalogStore). t.coordinators) e
    | inr (free, e) ↦ ap (λ (t : CatalogStore). t.coordinators) e
  ]

  apart :
      (namespace name : Text) (d : DatasetRow)
      → has_key namespace name row ≡ false
      → has_key row.namespace row.name d ≡ true
      → has_key namespace name d ≡ false
  apart namespace name d other hit =
      ground (arith, other, hit, text_eq_iff d.namespace row.namespace, text_eq_iff d.name row.name)

  -- The datasets of other names are shown as before.
  pub get_dataset_other :
      (namespace name : Text)
      → has_key namespace name row ≡ false
      → get_dataset uuids serde namespace name (insert_or_update db row s).1
        ≡ get_dataset uuids serde namespace name s
  unfolding get_dataset
  get_dataset_other namespace name other =
      let wanted : DatasetRow → Bool = λ d. has_key namespace name d && is_shown s.coordinators d in
      let quiet : (d : DatasetRow) → has_key namespace name d ≡ false → wanted d ≡ false =
        λ d h. ground (arith, h) in
      elim (insert_or_update-stored db row s known stored) [
        | inl (taken, e) ↦ rw e (
            ap (transposed uuids serde) (
              find-update_other (has_key row.namespace row.name) wanted (refreshed row) s.datasets
                (λ d hit. (
                  quiet d (apart namespace name d other hit),
                  quiet (refreshed row d) (apart namespace name d other hit),
                ))))
        | inr (free, e) ↦ rw e (
            ap (transposed uuids serde)
              (find-append_other wanted wanted (refreshed row) s.datasets row (quiet row other)))
      ]

  pub readable_kept :
      (u : Uuid)
      → uuids.parse_str row.id ≡ some u
      → AreReadable uuids s.datasets
      → AreReadable uuids (insert_or_update db row s).1.datasets
  readable_kept u read all d m = elim (insert_or_update-stored db row s known stored) [
    | inl (taken, e) ↦
        let (old, here, same) =
          mem_of_update (has_key row.namespace row.name) (has_key row.namespace row.name)
            (refreshed row) d s.datasets (subst (λ (t : CatalogStore). Memᴰ d t.datasets) e m) in
        let (w, r) = all old here in
        let kept : d.id ≡ old.id = elim same [
          | inl is_old ↦ ap (λ (z : DatasetRow). z.id) is_old
          | inr is_new ↦ ap (λ (z : DatasetRow). z.id) is_new
        ] in
        (w, ap uuids.parse_str kept ∙ r)
    | inr (free, e) ↦
        elim (Memᴰ.append_cases s.datasets (subst (λ (t : CatalogStore). Memᴰ d t.datasets) e m)) [
          | inl here ↦ all d here
          | inr new ↦
              (u, ap (λ (z : DatasetRow). uuids.parse_str z.id) (Memᴰ.eq_of_singleton new) ∙ read)
        ]
  ]
