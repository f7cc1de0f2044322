-- ===== src/Central/CoordinatorService/Registration.antt =====
-- From the configuration of a coordinator to the dataset that the catalog shows.
use elan.Common.{
  ℕ, ◌≡◌, refl, sym, ap, ◌∙◌, [], ◌∷◌, List, Bool, true, none, some, Text, find, inl, inr, Result,
  ok, err, >>=-eq-ok, none_if_empty, Result-cases,
}
use elan.Common.External.{Uuid, UuidCodec, Serde, Value}
use elan.Domain.Catalog.{DatasetInfo, SourceType, display}
use elan.Domain.Errors.{Status}
use elan.Domain.Proto.{DatasetRegistration}
use elan.Central.Database.{DbError}
use elan.Central.CatalogStore
use elan.Central.CatalogStore.{
  CatalogStore, CoordinatorRow, DatasetRow, Setup, is_coordinator, has_key,
}
use elan.Central.CatalogStore.Writes.{upsert_dataset-get, dataset, upserted}
use elan.Central.CoordinatorService.{register_dataset}
use elan.Coordinator.Config
use elan.Coordinator.Config.{DatasetConfig}
use elan.Coordinator.Dataset.{Probe, infer_schema, to_registration}

type_of : DatasetConfig → SourceType
type_of (DatasetConfig.parquet_source c) = SourceType.parquet
type_of (DatasetConfig.csv_source c) = SourceType.csv
type_of (DatasetConfig.postgres_source c) = SourceType.postgres
type_of (DatasetConfig.delta_source c) = SourceType.delta

source_type-display : (cfg : DatasetConfig) → Config.source_type cfg ≡ display (type_of cfg)
unfolding type_of Config.source_type
source_type-display (DatasetConfig.parquet_source c) = refl
source_type-display (DatasetConfig.csv_source c) = refl
source_type-display (DatasetConfig.postgres_source c) = refl
source_type-display (DatasetConfig.delta_source c) = refl

kept_text :
    (serde : Serde) (v : Value)
    → serde.from_str [] ≡ none
    → none_if_empty (serde.to_string v) ≡ some (serde.to_string v)
kept_text serde v h = go (serde.to_string v) (serde.from_str-to_string v)
  where
    go : (t : Text) → serde.from_str t ≡ some v → none_if_empty t ≡ some t
    go [] e = let never : none ≡ some v = sym h ∙ e in cc
    go (x ∷ t) e = refl

refused-ne : {e : Status} → ◌≡◌ {A = Result Status Bool} (err e) (ok true) → ⊥
refused-ne h = cc

module _ (probe : Probe) (cfg : DatasetConfig) (coordinator_id executor_endpoint : Text) where
  -- What the catalog shows of the dataset that `cfg` describes.
  pub record IsPublished (d : DatasetInfo) : Type 0 where
    pub name : d.name ≡ Config.name cfg
    pub namespace : d.namespace ≡ Config.namespace cfg
    pub source_type : display d.source_type ≡ Config.source_type cfg
    pub owner : d.coordinator_id ≡ coordinator_id
    pub endpoint : d.executor_endpoint ≡ executor_endpoint
    pub metadata : d.metadata ≡ Config.metadata_json cfg
    pub schema : probe.write_schema (infer_schema probe cfg) ≡ ok d.schema_ipc

module _ (uuids : UuidCodec) (serde : Serde) (probe : Probe) (db_text : DbError → Text) (db : Setup)
    (now : ℕ) (u : Uuid) (cfg : DatasetConfig) (coordinator_id : Text) (s : CatalogStore)
    (c : CoordinatorRow) (reg : DatasetRegistration) where
  abbrev stored : DatasetRegistration → Result DbError (Unit {0}) × CatalogStore
  stored r =
      CatalogStore.upsert_dataset db now r.coordinator_id r.dataset_id r.name r.namespace
        r.source_type r.coordinator_id r.arrow_schema_ipc (none_if_empty r.metadata_json) s

  register_dataset-accepted :
      (r : DatasetRegistration)
      → (register_dataset db_text db now r s).0 ≡ ok true
      → ((stored r).0 ≡ ok tt) × ((register_dataset db_text db now r s).1 ≡ (stored r).1)
  unfolding register_dataset
  register_dataset-accepted r h = elim (Result-cases (stored r).0) [
    | inl (done, e) ↦ (e, rw e refl)
    | inr (x, e) ↦ absurd (refused-ne (rw e at h))
  ]

  abbrev registration : List ℕ → DatasetRegistration
  registration ipc = record {
    coordinator_id = coordinator_id;
    dataset_id = uuids.to_string u;
    name = Config.name cfg;
    namespace = Config.namespace cfg;
    source_type = Config.source_type cfg;
    arrow_schema_ipc = ipc;
    metadata_json = serde.to_string (Config.metadata_json cfg);
  }

  abbrev as_typed : List ℕ → Result DbError (Unit {0}) × CatalogStore
  as_typed ipc =
      upserted uuids serde db now coordinator_id u (Config.name cfg) (Config.namespace cfg)
        (type_of cfg) coordinator_id ipc (Config.metadata_json cfg) s c

  stored-registration :
      (ipc : List ℕ) → serde.from_str [] ≡ none → stored (registration ipc) ≡ as_typed ipc
  stored-registration ipc never_empty =
      let described = kept_text serde (Config.metadata_json cfg) never_empty in
      λ i.
        CatalogStore.upsert_dataset db now coordinator_id (uuids.to_string u) (Config.name cfg)
          (Config.namespace cfg) (source_type-display cfg i) coordinator_id ipc (described i) s

  -- A dataset of a coordinator's configuration that is registered without an error is shown by the
  -- catalog under its namespace and name, with the described source and the endpoint of its
  -- coordinator, if the coordinator is registered and alive, an identifier that was stored under
  -- that name can be read, and no JSON value is read from an empty text.
  pub registered-IsPublished :
      serde.from_str [] ≡ none
      → to_registration probe uuids serde u cfg coordinator_id ≡ ok reg
      → find (is_coordinator coordinator_id) s.coordinators ≡ some c
      → c.is_alive ≡ true
      → ((old : DatasetRow)
          → find (has_key (Config.namespace cfg) (Config.name cfg)) s.datasets ≡ some old
          → (w : Uuid) × (uuids.parse_str old.id ≡ some w))
      → (register_dataset db_text db now reg s).0 ≡ ok true
      → (d : DatasetInfo) × (CatalogStore.get_dataset uuids serde
            (Config.namespace cfg)
            (Config.name cfg)
            (register_dataset db_text db now reg s).1
          ≡ ok (some d))
        × IsPublished probe cfg coordinator_id c.executor_endpoint d
  unfolding to_registration
  registered-IsPublished never_empty made known alive readable accepted =
      let (ipc, written, e) = >>=-eq-ok (probe.write_schema (infer_schema probe cfg)) _ made in
      let is_reg : registration ipc ≡ reg = cc in
      let (done, state) = register_dataset-accepted reg accepted in
      let same = ap stored (sym is_reg) ∙ stored-registration ipc never_empty in
      let (w, found, _) =
        upsert_dataset-get uuids serde db now coordinator_id u (Config.name cfg)
          (Config.namespace cfg) (type_of cfg) coordinator_id ipc (Config.metadata_json cfg) s c
          known alive readable (ap (λ o. o.0) (sym same) ∙ done) in
      (
        dataset uuids serde db now coordinator_id u (Config.name cfg) (Config.namespace cfg)
            (type_of cfg) coordinator_id ipc (Config.metadata_json cfg) s c w,
        ap (CatalogStore.get_dataset uuids serde (Config.namespace cfg) (Config.name cfg))
              (state ∙ ap (λ o. o.1) same)
            ∙ found,
        record {
          name = refl;
          namespace = refl;
          source_type = sym (source_type-display cfg);
          owner = refl;
          endpoint = refl;
          metadata = refl;
          schema = written;
        },
      )
