-- ===== src/Central/CatalogStore/Reads.antt =====
-- What the reads of the catalog show, and what hides a dataset from them.
use elan.Common.{
  text_eq, text_eq_iff, none, ◌≡◌, ◌≢◌, refl, sym, ap, ◌∙◌, subst, [], ◌∷◌, List, Memᴰ, Bool, true,
  false, ◌&&◌, Option, some, Text, inl, inr, ◌↔◌, find, Result, ok, err, ok_or, map_err, >>=-eq-ok,
  arith, Bool-cases, Option-cases,
}
use elan.Common.External.{UuidCodec, Serde}
use elan.Common.Membership.{mem_of_filter, mem-filter, mem-collect, mem_of_collect}
use elan.Common.Sorting.{mem-sort_by, mem_of_sort_by}
use elan.Domain.Catalog.{DatasetInfo, try_from}
use elan.Central.Database.{DbError, decode_error}
use elan.Central.CatalogStore.{
  CoordinatorRow, DatasetRow, CatalogStore, update, is_coordinator, is_live, is_shown, in_namespace,
  by_name, row_to_dataset, list_datasets, mark_coordinator_dead, metadata_of,
}

-- The asked namespace, if one is asked.
abbrev pub IsIn : Option Text → DatasetRow → Type 0
IsIn none row = Unit
IsIn (some ns) row = row.namespace ≡ ns

-- The coordinator with an identifier is registered and alive.
abbrev pub IsServed : List CoordinatorRow → Text → Type 0
IsServed coordinators id =
    (c : CoordinatorRow) × (find (λ c. text_eq c.id id) coordinators ≡ some c) × (c.is_alive ≡ true)

in_namespace_iff :
    (namespace_filter : Option Text) (row : DatasetRow)
    → (in_namespace namespace_filter row ≡ true) ↔ IsIn namespace_filter row
in_namespace_iff none row = (λ h. tt, λ h. refl)
in_namespace_iff (some ns) row = text_eq_iff row.namespace ns

is_live_iff :
    (coordinators : List CoordinatorRow) (id : Text)
    → (is_live coordinators id ≡ true) ↔ IsServed coordinators id
is_live_iff coordinators id = elim (Option-cases (find (is_coordinator id) coordinators)) [
  | inl e ↦ (
    λ h. let never : false ≡ true = rw (is_live, e) at h in cc,
    λ (c, found, alive).
        let never : ◌≡◌ {A = Option CoordinatorRow} none (some c) = sym e ∙ found in absurd (cc),
  )
  | inr (c, e) ↦ (
    λ h. (c, e, rw (is_live, e) at h),
    λ (b, found, alive).
        let same : b ≡ c = cc in
        rw (is_live, e) (ap (λ (z : CoordinatorRow). z.is_alive) (sym same) ∙ alive),
  )
]

is_shown_iff :
    (coordinators : List CoordinatorRow) (row : DatasetRow)
    → (is_shown coordinators row ≡ true)
      ↔ ((row.is_active ≡ true) × IsServed coordinators row.coordinator_id)
is_shown_iff coordinators row =
    let (there, back) = is_live_iff coordinators row.coordinator_id in
    (
      λ h. (ground (arith, h), there (ground (arith, h))),
      λ (active, served). let live = back served in rw (active, live) refl,
    )

module _ (uuids : UuidCodec) (serde : Serde) where
  -- Why a dataset is shown: its row is active and in the asked namespace, and its coordinator is
  -- registered and alive.
  abbrev pub Shows : CatalogStore → Option Text → DatasetInfo → DatasetRow → Type 0
  Shows s namespace_filter d row =
      Memᴰ row s.datasets
      × IsIn namespace_filter row
      × (row.is_active ≡ true)
      × IsServed s.coordinators row.coordinator_id
      × (row_to_dataset uuids serde row ≡ ok d)

  -- A successful listing holds exactly the datasets of the active rows in the asked namespace whose
  -- coordinator is registered and alive.
  pub list_datasets_iff :
      (s : CatalogStore) (namespace_filter : Option Text) (ds : List DatasetInfo) (d : DatasetInfo)
      → list_datasets uuids serde namespace_filter s ≡ ok ds
      → Memᴰ d ds ↔ ((row : DatasetRow) × Shows s namespace_filter d row)
  unfolding list_datasets
  list_datasets_iff s namespace_filter ds d e =
      let wanted : DatasetRow → Bool =
        λ r. in_namespace namespace_filter r && is_shown s.coordinators r in
      (
        λ m.
            let (row, listed, read) = mem_of_collect (row_to_dataset uuids serde) _ ds d e m in
            let (here, holds) =
              mem_of_filter wanted row s.datasets (mem_of_sort_by by_name row _ listed) in
            let (active, served) = (is_shown_iff s.coordinators row).0 (ground (arith, holds)) in
            let inside = (in_namespace_iff namespace_filter row).0 (ground (arith, holds)) in
            (row, (here, inside, active, served, read)),
        λ (row, (here, inside, active, served, read)).
            let in_it = (in_namespace_iff namespace_filter row).1 inside in
            let shown = (is_shown_iff s.coordinators row).1 (active, served) in
            mem-collect (row_to_dataset uuids serde) ds d e
              (mem-sort_by by_name (mem-filter wanted here (rw (in_it, shown) refl))) read,
      )

  coordinator_or : Text → Result DbError DatasetInfo → Text
  coordinator_or t (ok d) = d.coordinator_id
  coordinator_or t (err e) = t

  row_to_dataset-coordinator_id :
      (row : DatasetRow) (d : DatasetInfo)
      → row_to_dataset uuids serde row ≡ ok d
      → d.coordinator_id ≡ row.coordinator_id
  unfolding coordinator_or
  row_to_dataset-coordinator_id row d e =
      let (_, _, e1) = >>=-eq-ok (ok_or decode_error (uuids.parse_str row.id)) _ e in
      let (_, _, e2) = >>=-eq-ok (map_err (λ _. decode_error) (try_from row.source_type)) _ e1 in
      let (_, _, e3) = >>=-eq-ok (metadata_of serde row.metadata_json) _ e2 in
      ap (coordinator_or []) (sym e3)

  find-update :
      {A : Type 0} (q : A → Bool) (f : A → A) (xs : List A) (x : A)
      → ((y : A) → q (f y) ≡ q y)
      → find q (update q f xs) ≡ some x
      → (y : A) × (x ≡ f y)
  find-update q f [] x keeps h = cc
  find-update q f (y ∷ ys) x keeps h = elim (Bool-cases (q y)) [
    | inl here ↦ let found : some (f y) ≡ some x = rw (here, keeps y ∙ here) at h in (y, cc)
    | inr there ↦ find-update q f ys x keeps (rw (there, there) at h)
  ]

  dead-is_live :
      (cs : List CoordinatorRow) (id : Text)
      → is_live (update (is_coordinator id) (λ c. record c { is_alive = false }) cs) id ≡ false
  dead-is_live cs id =
      let cs' = update (is_coordinator id) (λ c. record c { is_alive = false }) cs in
      elim (Option-cases (find (is_coordinator id) cs')) [
        | inl e ↦ rw (is_live, e) refl
        | inr (c, e) ↦
            let (y, same) =
              find-update (is_coordinator id) (λ c. record c { is_alive = false }) cs c (λ y. refl)
                e in
            rw (is_live, e) (ap (λ (z : CoordinatorRow). z.is_alive) same)
      ]

  -- Once a coordinator is marked dead, no listing shows a dataset of it.
  pub mark_coordinator_dead_hides :
      (id : Text) (s : CatalogStore) (namespace_filter : Option Text) (ds : List DatasetInfo)
      (d : DatasetInfo)
      → list_datasets uuids serde namespace_filter (mark_coordinator_dead id s).1 ≡ ok ds
      → Memᴰ d ds
      → d.coordinator_id ≢ id
  unfolding mark_coordinator_dead
  mark_coordinator_dead_hides id s namespace_filter ds d e m same =
      let (row, (here, inside, active, served, read)) =
        (list_datasets_iff _ namespace_filter ds d e).0 m in
      let owner : row.coordinator_id ≡ id = sym (row_to_dataset-coordinator_id row d read) ∙ same in
      let dead = dead-is_live s.coordinators id in
      let live : is_live (mark_coordinator_dead id s).1.coordinators row.coordinator_id ≡ true =
        (is_live_iff (mark_coordinator_dead id s).1.coordinators row.coordinator_id).1 served in
      let gone : is_live (mark_coordinator_dead id s).1.coordinators row.coordinator_id ≡ false =
        subst (λ i. is_live (mark_coordinator_dead id s).1.coordinators i ≡ false) (sym owner)
          dead in
      cc
