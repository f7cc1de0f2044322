-- ===== src/Query/Catalog/Provider/Visibility.antt =====
-- What a user sees of a namespace, and what the table cache keeps.
use mathlib.Core.List.Memᴰ
use elan.Common.{
  text_eq_iff, sym, ◌≡◌, refl, [], ◌∷◌, List, Memᴰ, true, false, Option, none, some, Text, inl, inr,
  ◌↔◌, Result, ok, err, arith, Bool-cases, text_eq, text_eq_refl, Option-cases, Result-cases,
}
use elan.Common.External.{UuidCodec, Serde}
use elan.Common.Membership.{mem_of_filter, mem-filter}
use elan.Domain.Errors.{Status}
use elan.Domain.Proto.{DatasetProto}
use elan.Iam.CatalogFilter.{is_visible}
use elan.Query.Catalog.Table.{ArrowIpc, ElanTableProvider, new_table}
use elan.Iam.Types.{Subject}
use elan.Iam.Engine.{IamEngine}
use elan.Domain.Catalog.{DatasetInfo}
use elan.Query.Catalog.Provider.Tables.{names, mem-tables_of}
use elan.Query.Catalog.Provider.{
  tables_of, new_schema_provider, table_exist, is_not_found, ElanSchemaProvider, TableError, get,
  insert, keys, is_offered, table_names, table, cached_or_fetched, fetched, store_table,
  dataset_of_proto,
}

module _ {A : Type 0} where
  pub get-insert : (k : Text) (a : A) (m : List (Text × A)) → get k (insert k a m) ≡ some a
  get-insert k a [] = ground (arith, text_eq_refl k)
  get-insert k a ((l, b) ∷ m) = elim (Bool-cases (text_eq l k)) [
    | inl same ↦ rw (same, same) refl
    | inr other ↦ rw (other, other) (get-insert k a m)
  ]

-- A user is offered exactly the cached tables that the policies let the user select from.
pub table_names_iff :
    (provider : ElanSchemaProvider) (name : Text)
    → Memᴰ name (table_names provider) ↔ (
        Memᴰ name (keys provider.datasets)
        × (is_visible provider.iam_engine provider.subject provider.namespace name ≡ true))
unfolding table_names is_offered
table_names_iff provider name = (
  mem_of_filter (is_offered provider) name (keys provider.datasets),
  λ (m, h). mem-filter (is_offered provider) m h,
)

module _ (uuids : UuidCodec) (serde : Serde) (ipc : ArrowIpc) where
  table_hidden :
      (central : Text → Text → Result Status DatasetProto) (name : Text)
      (provider : ElanSchemaProvider)
      → is_visible provider.iam_engine provider.subject provider.namespace name ≡ false
      → table uuids serde ipc central name provider ≡ (ok none, provider)
  unfolding table is_offered
  table_hidden central name provider h = rw h refl

  get_of_mem :
      {A : Type 0} (k : Text) (m : List (Text × A)) → Memᴰ k (keys m) → (a : A) × (get k m ≡ some a)
  get_of_mem k [] x = absurd (Memᴰ.not-nil x)
  get_of_mem k ((l, a) ∷ m) x = elim (Bool-cases (text_eq l k)) [
    | inl same ↦ (a, rw (same, get) refl)
    | inr other ↦ elim (Memᴰ.cases_cons x) [
      | inl e ↦ let same = (text_eq_iff l k).1 (sym e) in absurd (ground (arith, same, other))
      | inr t ↦ let (b, found) = get_of_mem k m t in (b, rw (other, get) found)
    ]
  ]

  -- In the schema of a user, a loaded dataset that the user may not select from is not listed, and
  -- looking it up finds no table and changes nothing, whatever the central catalog would answer. But
  -- the schema tells that it exists.
  pub hidden_table_exists :
      (ns name : Text) (datasets : List DatasetInfo) (engine : IamEngine) (subject : Subject)
      (central : Text → Text → Result Status DatasetProto)
      → Memᴰ name (names datasets)
      → is_visible engine subject ns name ≡ false
      → (Memᴰ name (table_names (new_schema_provider ipc ns datasets engine subject)) → ⊥)
        × (table uuids serde ipc central name (new_schema_provider ipc ns datasets engine subject)
            ≡ (ok none, new_schema_provider ipc ns datasets engine subject))
        × (table_exist (new_schema_provider ipc ns datasets engine subject) name ≡ true)
  unfolding new_schema_provider table_exist
  hidden_table_exists ns name datasets engine subject central loaded hidden =
      let provider = new_schema_provider ipc ns datasets engine subject in
      let (t, found) =
        get_of_mem name (tables_of ipc datasets [])
          (mem-tables_of ipc name datasets [] (inl loaded)) in
      (
        λ m.
            let visible = ((table_names_iff provider name).0 m).1 in
            absurd (ground (arith, visible, hidden)),
        table_hidden central name provider hidden,
        rw found refl,
      )

  ok_none-ne :
      {t : ElanTableProvider}
      → ◌≡◌ {A = Result TableError (Option ElanTableProvider)} (ok none) (ok (some t))
      → ⊥
  ok_none-ne h = cc

  err-ne :
      {x : TableError} {t : ElanTableProvider}
      → ◌≡◌ {A = Result TableError (Option ElanTableProvider)} (err x) (ok (some t))
      → ⊥
  err-ne h = cc

  refetched :
      (later : Text → Text → Result Status DatasetProto) (name : Text)
      (provider : ElanSchemaProvider) (t : ElanTableProvider) (answer : Result Status DatasetProto)
      → is_offered provider name ≡ true
      → (fetched uuids serde ipc provider name answer).0 ≡ ok (some t)
      → table uuids serde ipc later name (fetched uuids serde ipc provider name answer).1
        ≡ fetched uuids serde ipc provider name answer
  unfolding table is_offered cached_or_fetched fetched store_table
  refetched later name provider t (err status) offered h =
      elim (Bool-cases (is_not_found uuids serde ipc status.code)) [
        | inl b ↦ absurd (ok_none-ne (rw b at h))
        | inr b ↦ absurd (err-ne (rw b at h))
      ]
  refetched later name provider t (ok proto) offered h =
      elim (Result-cases (dataset_of_proto uuids serde proto)) [
        | inr (x, e) ↦ absurd (err-ne (rw e at h))
        | inl (ds, e) ↦ rw (e, offered, get-insert name (new_table ipc ds) provider.datasets) refl
      ]

  -- A table that was found once is found again, with no further answer of the central catalog.
  pub table_cached :
      (central later : Text → Text → Result Status DatasetProto) (name : Text)
      (provider : ElanSchemaProvider) (t : ElanTableProvider)
      → (table uuids serde ipc central name provider).0 ≡ ok (some t)
      → table uuids serde ipc later name (table uuids serde ipc central name provider).1
        ≡ table uuids serde ipc central name provider
  unfolding table is_offered
  table_cached central later name provider t h = elim (Bool-cases (is_offered provider name)) [
    | inr hidden ↦
        let never : ◌≡◌ {A = Result TableError (Option ElanTableProvider)} (ok none) (ok (some t)) =
          rw hidden at h in
        absurd (ok_none-ne never)
    | inl offered ↦ elim (Option-cases (get name provider.datasets)) [
      | inr (c, e) ↦ rw (offered, e, offered, e) refl
      | inl e ↦
          let found : (fetched uuids serde ipc provider name (central provider.namespace name)).0
              ≡ ok (some t) =
            rw (offered, e) at h in
          rw (offered, e)
            (refetched later name provider t (central provider.namespace name) offered found)
    ]
  ]
