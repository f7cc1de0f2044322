-- ===== src/Query/Session/Schemas.antt =====
-- The schemas of a user's session.
use elan.Common.{
  ◌≡◌, refl, ap, ◌∙◌, subst, [], ◌∷◌, List, Option, none, some, Text, inl, inr, Bool-cases, text_eq,
  text_eq_iff,
}
use elan.Common.External.{UuidCodec, Serde}
use elan.Domain.Catalog.{DatasetInfo}
use elan.Iam.Types.{Subject}
use elan.Iam.Engine.{IamEngine, snapshot_engine}
use elan.Query.Catalog.Table.{ArrowIpc}
use elan.Query.Catalog.CatalogProvider.{schema}
use elan.Query.Catalog.Provider.{get, insert, ElanSchemaProvider, new_schema_provider}
use elan.Query.Catalog.Provider.Tables.{IsMap, get-insert}
use elan.Query.Session.{schemas_of, SessionFactory, build_for_user}

module _ (uuids : UuidCodec) (serde : Serde) (ipc : ArrowIpc) (engine : IamEngine)
    (subject : Subject) (ns : Text) where
  abbrev pub provider_or :
      Option ElanSchemaProvider → Option (List DatasetInfo) → Option ElanSchemaProvider
  provider_or before none = before
  provider_or before (some l) = some (new_schema_provider ipc ns l engine subject)

  get-schemas_of :
      (by_ns : List (Text × List DatasetInfo)) (before : List (Text × ElanSchemaProvider))
      → IsMap by_ns
      → get ns (schemas_of uuids serde ipc engine subject by_ns before)
        ≡ provider_or (get ns before) (get ns by_ns)
  unfolding schemas_of
  get-schemas_of [] before distinct = refl
  get-schemas_of ((k, l) ∷ rest) before (fresh, distinct) =
      let p = new_schema_provider ipc k l engine subject in
      let later = get-schemas_of rest (insert k p before) distinct in
      elim (Bool-cases (text_eq k ns)) [
        | inl same ↦
            let k_is = (text_eq_iff k ns).0 same in
            let gone : get ns rest ≡ none = subst (λ t. get t rest ≡ none) k_is fresh in
            later
            ∙ ap (provider_or (get ns (insert k p before))) gone
            ∙ get-insert k ns p before
            ∙ rw same (ap (λ t. some (new_schema_provider ipc t l engine subject)) k_is)
        | inr other ↦
            let kept : get ns (insert k p before) ≡ get ns before =
              get-insert k ns p before ∙ (rw other refl) in
            rw other (later ∙ ap (λ o. provider_or o (get ns rest)) kept)
      ]

module _ (uuids : UuidCodec) (serde : Serde) (ipc : ArrowIpc) where
  pub schema-build_for_user :
      (subject : Subject) (factory : SessionFactory) (ns : Text)
      → IsMap factory.datasets_by_ns
      → schema ns (build_for_user uuids serde ipc subject factory).catalog
        ≡ provider_or uuids serde ipc
            (snapshot_engine uuids serde factory.iam_engine)
            subject
            ns
            none
            (get ns factory.datasets_by_ns)
  unfolding build_for_user schema
  schema-build_for_user subject factory ns distinct =
      get-schemas_of uuids serde ipc (snapshot_engine uuids serde factory.iam_engine) subject ns
        factory.datasets_by_ns [] distinct
