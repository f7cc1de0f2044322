-- ===== src/Query/Catalog/Provider/Tables.antt =====
-- The maps of a schema provider: what they hold after insertions.
use mathlib.Core.List.Memᴰ
use elan.Common.{
  ◌≡◌, refl, sym, ◌∙◌, [], ◌∷◌, List, Memᴰ, none, some, Text, ◌⊎◌, inl, inr, map, Bool-cases,
  text_eq, text_eq_iff, if◌then◌else◌, arith,
}
use elan.Domain.Catalog.{DatasetInfo}
use elan.Query.Catalog.Table.{ArrowIpc, ElanTableProvider, new_table}
use elan.Query.Catalog.Provider.{get, insert, keys, tables_of}

module _ {A : Type 0} where
  -- The keys of a hash map are distinct.
  abbrev pub IsMap : List (Text × A) → Type 0
  IsMap [] = Unit
  IsMap ((k, a) ∷ m) = (get k m ≡ none) × IsMap m

  pub get-insert :
      (k l : Text) (a : A) (m : List (Text × A))
      → get l (insert k a m) ≡ (if text_eq k l then some a else get l m)
  get-insert k l a [] = refl
  get-insert k l a ((j, b) ∷ m) =
      ground (arith, get-insert k l a m, text_eq_iff j k, text_eq_iff k l, text_eq_iff j l)

  mem_of_insert :
      (k l : Text) (a : A) (m : List (Text × A))
      → Memᴰ l (keys (insert k a m))
      → (l ≡ k) ⊎ Memᴰ l (keys m)
  mem_of_insert k l a [] x = inl (Memᴰ.eq_of_singleton x)
  mem_of_insert k l a ((j, b) ∷ m) x = elim (Bool-cases (text_eq j k)) [
    | inl same ↦ inr (rw same at x)
    | inr other ↦ elim (Memᴰ.cases_cons (rw other at x)) [
      | inl e ↦ inr (Memᴰ.head e)
      | inr t ↦ elim (mem_of_insert k l a m t) [ inl e ↦ inl e | inr u ↦ inr (Memᴰ.tail u) ]
    ]
  ]

  mem-insert :
      (k l : Text) (a : A) (m : List (Text × A))
      → (l ≡ k) ⊎ Memᴰ l (keys m)
      → Memᴰ l (keys (insert k a m))
  mem-insert k l a [] (inl e) = Memᴰ.head e
  mem-insert k l a [] (inr x) = absurd (Memᴰ.not-nil x)
  mem-insert k l a ((j, b) ∷ m) x = elim (Bool-cases (text_eq j k)) [
    | inl same ↦
        rw same (elim x [ inl e ↦ Memᴰ.head (e ∙ sym ((text_eq_iff j k).0 same)) | inr y ↦ y ])
    | inr other ↦ rw other (elim x [
      | inl e ↦ Memᴰ.tail (mem-insert k l a m (inl e))
      | inr y ↦ elim (Memᴰ.cases_cons y) [
        | inl e ↦ Memᴰ.head e
        | inr t ↦ Memᴰ.tail (mem-insert k l a m (inr t))
      ]
    ])
  ]

abbrev pub names : List DatasetInfo → List Text
names ds = map (λ (d : DatasetInfo). d.name) ds

module _ (ipc : ArrowIpc) where
  pub mem_of_tables_of :
      (name : Text) (ds : List DatasetInfo) (m : List (Text × ElanTableProvider))
      → Memᴰ name (keys (tables_of ipc ds m))
      → Memᴰ name (names ds) ⊎ Memᴰ name (keys m)
  unfolding tables_of
  mem_of_tables_of name [] m x = inr x
  mem_of_tables_of name (d ∷ ds) m x =
      elim (mem_of_tables_of name ds (insert d.name (new_table ipc d) m) x) [
        | inl here ↦ inl (Memᴰ.tail here)
        | inr rest ↦ elim (mem_of_insert d.name name (new_table ipc d) m rest) [
          | inl e ↦ inl (Memᴰ.head e)
          | inr old ↦ inr old
        ]
      ]

  pub mem-tables_of :
      (name : Text) (ds : List DatasetInfo) (m : List (Text × ElanTableProvider))
      → Memᴰ name (names ds) ⊎ Memᴰ name (keys m)
      → Memᴰ name (keys (tables_of ipc ds m))
  unfolding tables_of
  mem-tables_of name [] m (inl x) = absurd (Memᴰ.not-nil x)
  mem-tables_of name [] m (inr x) = x
  mem-tables_of name (d ∷ ds) m (inr x) =
      mem-tables_of name ds _ (inr (mem-insert d.name name (new_table ipc d) m (inr x)))
  mem-tables_of name (d ∷ ds) m (inl x) = elim (Memᴰ.cases_cons x) [
    | inl e ↦ mem-tables_of name ds _ (inr (mem-insert d.name name (new_table ipc d) m (inl e)))
    | inr t ↦ mem-tables_of name ds _ (inl t)
  ]
