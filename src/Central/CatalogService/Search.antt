-- ===== src/Central/CatalogService/Search.antt =====
-- What a search of the catalog answers.
use elan.Common.{
  ◌≡◌, refl, ap, [], ◌∷◌, ◌++◌, List, Memᴰ, Bool, true, ◌||◌, none, Text, text_eq_iff, inl, inr,
  ◌↔◌, ◌⊎◌, ok, map, filter, arith, Bool-cases,
}
use elan.Common.External.{UuidCodec, Serde}
use elan.Common.Membership.{mem_of_filter, mem-filter, mem-map, mem_of_map}
use elan.Domain.Proto.{DatasetProto}
use elan.Domain.Catalog.{DatasetInfo}
use elan.Central.Database.{DbError}
use elan.Central.CatalogStore
use elan.Central.CatalogStore.{CatalogStore, DatasetRow}
use elan.Central.CatalogStore.Reads.{Shows, list_datasets_iff}
use elan.Central.CatalogService.{starts_with, contains_text, dataset_to_proto, search_datasets}

-- A text that stands somewhere in another.
abbrev pub Occurs : Text → Text → Type 0
Occurs s t = (a : Text) × (b : Text) × (t ≡ a ++ (s ++ b))

starts_with_iff : (s t : Text) → (starts_with s t ≡ true) ↔ ((b : Text) × (t ≡ s ++ b))
starts_with_iff [] t = (λ e. (t, refl), λ h. refl)
starts_with_iff (x ∷ s) [] = (λ e. cc, λ (b, e). cc)
starts_with_iff (x ∷ s) (y ∷ t) = (
  λ e.
      let same = (text_eq_iff (x ∷ []) (y ∷ [])).0 (ground (arith, e)) in
      let (b, e') = (starts_with_iff s t).0 (ground (arith, e)) in (b, cc),
  λ (b, e).
      let same : x ∷ [] ≡ y ∷ [] = cc in
      let rest : t ≡ s ++ b = cc in
      rw ((text_eq_iff (x ∷ []) (y ∷ [])).1 same) ((starts_with_iff s t).1 (b, rest)),
)

Occurs-cons :
    (s : Text) (y : _) (t : Text)
    → Occurs s (y ∷ t) ↔ (((b : Text) × (y ∷ t ≡ s ++ b)) ⊎ Occurs s t)
Occurs-cons s y t = (there, back)
  where
    there : Occurs s (y ∷ t) → ((b : Text) × (y ∷ t ≡ s ++ b)) ⊎ Occurs s t
    there ([], b, e) = inl (b, e)
    there (x ∷ a, b, e) = inr (a, b, cc)

    back : ((b : Text) × (y ∷ t ≡ s ++ b)) ⊎ Occurs s t → Occurs s (y ∷ t)
    back (inl (b, e)) = ([], b, e)
    back (inr (a, b, e)) = (y ∷ a, b, ap (λ r. y ∷ r) e)

contains_text_iff : (s t : Text) → (contains_text s t ≡ true) ↔ Occurs s t
contains_text_iff s [] =
    (λ e. let (b, e') = (starts_with_iff s []).0 e in ([], b, e'), λ h. at_end h)
  where
    at_end : Occurs s [] → starts_with s [] ≡ true
    at_end ([], b, e) = (starts_with_iff s []).1 (b, e)
    at_end (x ∷ a, b, e) = cc
contains_text_iff s (y ∷ t) = (
  λ e. (Occurs-cons s y t).1 (elim (Bool-cases (starts_with s (y ∷ t))) [
    | inl here ↦ inl ((starts_with_iff s (y ∷ t)).0 here)
    | inr there ↦ inr ((contains_text_iff s t).0 (rw there at e))
  ]),
  λ h. elim ((Occurs-cons s y t).0 h) [
    | inl here ↦ rw ((starts_with_iff s (y ∷ t)).1 here) refl
    | inr there ↦ let later = (contains_text_iff s t).1 there in ground (arith, later)
  ],
)

-- A dataset that a search for a text finds, by its name or its namespace.
abbrev pub Found : (Text → Text) → Text → DatasetInfo → Type 0
Found to_lowercase query d =
    Occurs (to_lowercase query) (to_lowercase d.name)
    ⊎ Occurs (to_lowercase query) (to_lowercase d.namespace)

-- The test of the search.
abbrev is_found : (Text → Text) → Text → DatasetInfo → Bool
is_found to_lowercase query d =
    contains_text (to_lowercase query) (to_lowercase d.name)
    || contains_text (to_lowercase query) (to_lowercase d.namespace)

is_found_iff :
    (to_lowercase : Text → Text) (query : Text) (d : DatasetInfo)
    → (is_found to_lowercase query d ≡ true) ↔ Found to_lowercase query d
is_found_iff to_lowercase query d =
    let by_name = contains_text_iff (to_lowercase query) (to_lowercase d.name) in
    let by_namespace = contains_text_iff (to_lowercase query) (to_lowercase d.namespace) in
    (
      λ e. elim (Bool-cases (contains_text (to_lowercase query) (to_lowercase d.name))) [
        | inl here ↦ inl (by_name.0 here)
        | inr there ↦ inr (by_namespace.0 (rw there at e))
      ],
      λ h. elim h [
        | inl here ↦ rw (by_name.1 here) refl
        | inr there ↦ let found = by_namespace.1 there in ground (arith, found)
      ],
    )

module _ (uuids : UuidCodec) (serde : Serde) (db_text : DbError → Text) where
  -- If the datasets can be listed, a search succeeds, and its answer holds exactly the messages of
  -- the datasets of active rows whose coordinator is registered and alive, and whose name or
  -- namespace contains the searched text, all of them in lower case.
  pub search_datasets_iff :
      (to_lowercase : Text → Text) (query : Text) (s : CatalogStore) (ds : List DatasetInfo)
      → CatalogStore.list_datasets uuids serde none s ≡ ok ds
      → (ps : List DatasetProto) × (search_datasets uuids serde db_text to_lowercase query s
          ≡ ok ps)
        × ((p : DatasetProto)
            → Memᴰ p ps ↔ (
                (d : DatasetInfo) × (p ≡ dataset_to_proto uuids serde db_text d)
                × Found to_lowercase query d
                × ((row : DatasetRow) × Shows uuids serde s none d row)))
  unfolding search_datasets
  search_datasets_iff to_lowercase query s ds e =
      let wanted = is_found to_lowercase query in
      let proto = dataset_to_proto uuids serde db_text in
      (
        map proto (filter wanted ds),
        rw e refl,
        λ p. (
          λ m.
              let (d, listed, same) = mem_of_map proto p (filter wanted ds) m in
              let (here, holds) = mem_of_filter wanted d ds listed in
              (
                d,
                same,
                (is_found_iff to_lowercase query d).0 holds,
                (list_datasets_iff uuids serde s none ds d e).0 here,
              ),
          λ (d, same, found, shows).
              let here = (list_datasets_iff uuids serde s none ds d e).1 shows in
              let holds = (is_found_iff to_lowercase query d).1 found in
              rw same (mem-map proto (mem-filter wanted here holds)),
        ),
      )
