-- ===== src/Query/Http/Listing.antt =====
-- The catalog that `handle_catalog` lists for a user.
use mathlib.Core.List.Memᴰ
use elan.Common.{
  ◌≡◌, refl, sym, ap, ◌∙◌, subst, [], ◌∷◌, List, Memᴰ, Bool, true, Option, none, some, Text, ◌↔◌,
  inl, inr, Result, ok, map, find, any, Result-cases, Bool-cases, Option-cases, text_eq,
  text_eq_iff, if◌then◌else◌, arith,
}
use elan.Common.External.{UuidCodec, Serde}
use elan.Domain.Catalog.{DatasetInfo}
use elan.Iam.Types.{Subject}
use elan.Iam.Engine.{snapshot_engine}
use elan.Iam.CatalogFilter.{is_visible}
use elan.Query.Catalog.Table.{ArrowIpc}
use elan.Query.Catalog.CatalogProvider.{ElanCatalogProvider, schema, schema_names}
use elan.Query.Catalog.Provider.{get, keys, ElanSchemaProvider, new_schema_provider, table_names}
use elan.Query.Catalog.Provider.Tables.{IsMap, names, mem_of_tables_of, mem-tables_of}
use elan.Query.Catalog.Provider.Visibility.{table_names_iff}
use elan.Query.Session.{SessionFactory, Session, build_for_user}
use elan.Query.Session.Datasets.{under}
use elan.Query.Session.Schemas.{provider_or, schema-build_for_user}
use elan.Query.Http.{
  DatasetSummary, NamespaceInfo, summary, namespace_info, pushed, namespaces_of, catalog_of,
  handle_catalog, extract_subject,
}

-- The names of the tables that are listed under a namespace.
abbrev pub listed : Text → List NamespaceInfo → List Text
listed ns infos = elim (find (λ (i : NamespaceInfo). text_eq i.name ns) infos) [
  | none ↦ []
  | some i ↦ map (λ (d : DatasetSummary). d.name) i.datasets
]

abbrev offered : Option ElanSchemaProvider → List Text
offered none = []
offered (some p) = table_names p

if_same : (b : Bool) (xs : List Text) → (if b then xs else xs) ≡ xs
if_same b xs = ground arith

names_of_summaries : (ts : List Text) → map (λ (d : DatasetSummary). d.name) (map summary ts) ≡ ts
unfolding summary
names_of_summaries [] = refl
names_of_summaries (t ∷ ts) = ap (λ us. t ∷ us) (names_of_summaries ts)

-- The datasets that are listed under a namespace.
abbrev pub entries : Text → List NamespaceInfo → List DatasetSummary
entries ns infos = elim (find (λ (i : NamespaceInfo). text_eq i.name ns) infos) [
  | none ↦ []
  | some i ↦ i.datasets
]

entries-namespaces_of :
    (ns : Text) (catalog : ElanCatalogProvider) (ks : List Text)
    → entries ns (namespaces_of catalog ks) ≡ map summary (listed ns (namespaces_of catalog ks))
unfolding namespaces_of pushed namespace_info
entries-namespaces_of ns catalog [] = refl
entries-namespaces_of ns catalog (k ∷ ks) =
    let rest = entries-namespaces_of ns catalog ks in
    elim (Option-cases (schema k catalog)) [
      | inl e ↦ rw e rest
      | inr (p, e) ↦ rw e (elim (Bool-cases (text_eq k ns)) [
        | inl same ↦ rw same (ap (map summary) (sym (names_of_summaries (table_names p))))
        | inr other ↦ rw other rest
      ])
    ]

pub entries-handle_catalog :
    (build : Subject → Result Text Session) (header : Option Text) (ns : Text)
    → entries ns (handle_catalog build header)
      ≡ map summary (listed ns (handle_catalog build header))
unfolding handle_catalog catalog_of
entries-handle_catalog build header ns = elim (Result-cases (build (extract_subject header))) [
  | inl (ctx, e) ↦ rw e (entries-namespaces_of ns ctx.catalog (schema_names ctx.catalog))
  | inr (x, e) ↦ rw e refl
]

-- The loop lists each name that it meets, if it has a schema.
listed-namespaces_of :
    (ns : Text) (catalog : ElanCatalogProvider) (ks : List Text)
    → listed ns (namespaces_of catalog ks)
      ≡ (if any (λ k. text_eq k ns) ks then offered (schema ns catalog) else [])
unfolding namespaces_of pushed namespace_info
listed-namespaces_of ns catalog [] = refl
listed-namespaces_of ns catalog (k ∷ ks) =
    let rest = listed-namespaces_of ns catalog ks in
    elim (Option-cases (schema k catalog)) [
      | inl e ↦ rw e (elim (Bool-cases (text_eq k ns)) [
        | inl same ↦
            let unknown : schema ns catalog ≡ none =
              subst (λ t. schema t catalog ≡ none) ((text_eq_iff k ns).0 same) e in
            rw (same, unknown) (rest ∙ rw unknown (if_same (any (λ j. text_eq j ns) ks) []))
        | inr other ↦ rw other rest
      ])
      | inr (p, e) ↦ rw e (elim (Bool-cases (text_eq k ns)) [
        | inl same ↦
            let known : schema ns catalog ≡ some p =
              subst (λ t. schema t catalog ≡ some p) ((text_eq_iff k ns).0 same) e in
            rw (same, known) (names_of_summaries (table_names p))
        | inr other ↦ rw other rest
      ])
    ]

schema_of_names :
    (ns : Text) (catalog : ElanCatalogProvider)
    → (if any (λ k. text_eq k ns) (schema_names catalog) then offered (schema ns catalog) else [])
      ≡ offered (schema ns catalog)
unfolding schema_names schema
schema_of_names ns catalog = of_map catalog.schemas
  where
    of_map :
        (m : List (Text × ElanSchemaProvider))
        → (if any (λ k. text_eq k ns) (keys m) then offered (get ns m) else []) ≡ offered (get ns m)
    of_map [] = refl
    of_map ((k, p) ∷ m) = elim (Bool-cases (text_eq k ns)) [
      | inl same ↦ rw same refl
      | inr other ↦ rw other (of_map m)
    ]

module _ (uuids : UuidCodec) (serde : Serde) (ipc : ArrowIpc) (factory : SessionFactory)
    (build : Subject → Result Text Session) (header : Option Text) (ns name : Text) where
  abbrev pub may_select : Bool
  may_select =
      is_visible (snapshot_engine uuids serde factory.iam_engine) (extract_subject header) ns name

  offered_iff :
      (o : Option (List DatasetInfo))
      → Memᴰ name (
          offered (
            provider_or uuids serde ipc
              (snapshot_engine uuids serde factory.iam_engine)
              (extract_subject header)
              ns
              none
              o))
        ↔ (Memᴰ name (names (elim o [ none ↦ [] | some l ↦ l ])) × (may_select ≡ true))
  unfolding new_schema_provider
  offered_iff none = (λ m. absurd (Memᴰ.not-nil m), λ h. absurd (Memᴰ.not-nil h.0))
  offered_iff (some l) =
      let p =
        new_schema_provider ipc ns l (snapshot_engine uuids serde factory.iam_engine)
          (extract_subject header) in
      let (there, back) = table_names_iff p name in
      (
        λ m.
            let (k, v) = there m in
            (
              elim (mem_of_tables_of ipc name l [] k) [
                | inl x ↦ x
                | inr x ↦ absurd (Memᴰ.not-nil x)
              ],
              v,
            ),
        λ (m, v). back (mem-tables_of ipc name l [] (inl m), v),
      )

  -- If the session is that of a factory whose cached namespaces are distinct, the catalog lists
  -- under a namespace exactly the names of its cached datasets that the policies let the user
  -- select from.
  pub handle_catalog_iff :
      IsMap factory.datasets_by_ns
      → build (extract_subject header)
        ≡ ok (build_for_user uuids serde ipc (extract_subject header) factory)
      → Memᴰ name (listed ns (handle_catalog build header))
        ↔ (Memᴰ name (names (under ns factory.datasets_by_ns)) × (may_select ≡ true))
  unfolding handle_catalog catalog_of
  handle_catalog_iff distinct built =
      let subject = extract_subject header in
      let engine = snapshot_engine uuids serde factory.iam_engine in
      let catalog = (build_for_user uuids serde ipc subject factory).catalog in
      let e : listed ns (handle_catalog build header)
          ≡ offered
              (provider_or uuids serde ipc engine subject ns none (get ns factory.datasets_by_ns)) =
        ap (λ r. listed ns (catalog_of r)) built
        ∙ listed-namespaces_of ns catalog (schema_names catalog)
        ∙ schema_of_names ns catalog
        ∙ ap offered (schema-build_for_user uuids serde ipc subject factory ns distinct) in
      let (there, back) = offered_iff (get ns factory.datasets_by_ns) in
      (λ m. there (subst (Memᴰ name) e m), λ h. subst (Memᴰ name) (sym e) (back h))
