-- ===== src/Examples/Catalog.antt =====
-- Examples for the catalog of elan-central.
use elan.Common.{
  ◌≡◌, ◌≢◌, refl, [], ◌∷◌, Memᴰ, ◌⊎◌, ◌↔◌, true, false, none, some, Text, codes, Result, ok, find,
  subst,
}
use elan.Common.External.{Uuid, Value, string}
use elan.Domain.Catalog.{DatasetInfo, csv, parquet, try_from}
use elan.Domain.Proto.{DatasetRegistration}
use elan.Coordinator.Config
use elan.Coordinator.Config.{DatasetConfig, Csv, metadata_json}
use elan.Coordinator.Dataset.{Probe, to_registration}
use elan.Central.Database.{DbError}
use elan.Central.CatalogStore.{
  CoordinatorRow, DatasetRow, CatalogStore, Setup, has_key, get_dataset, list_datasets,
  upsert_dataset, mark_coordinator_dead,
}
use elan.Central.CatalogStore.Reads.{Shows, list_datasets_iff, mark_coordinator_dead_hides}
use elan.Central.CatalogStore.Writes.{dataset, upsert_dataset-get}
use elan.Examples.Codecs.{uuids, serde, run, write}

abbrev pub db_text : DbError → Text
db_text e = codes "database error"

abbrev pub db : Setup
db = record { foreign_keys = true; key_first = true }

abbrev pub c1 : CoordinatorRow
c1 = record {
  id = codes "c1";
  environment = codes "dev";
  hostname = codes "host";
  executor_endpoint = codes "10.0.0.5:50051";
  registered_at = 1;
  last_heartbeat_at = 1;
  is_alive = true;
}

-- The dataset as it was registered first, with identifier 7.
abbrev pub old_trades : DatasetRow
old_trades = record {
  id = 7 ∷ [];
  name = codes "trades";
  namespace = codes "finance";
  source_type = codes "parquet";
  coordinator_id = codes "c1";
  executor_endpoint = codes "10.0.0.4:50051";
  arrow_schema_ipc = 1 ∷ [];
  metadata_json = none;
  registered_at = 1;
  last_seen_at = 1;
  is_active = false;
}

abbrev pub s : CatalogStore
s = record { coordinators = c1 ∷ []; datasets = old_trades ∷ [] }

old_readable :
    (old : DatasetRow)
    → find (has_key (codes "finance") (codes "trades")) (old_trades ∷ []) ≡ some old
    → (w : Uuid) × (uuids.parse_str old.id ≡ some w)
old_readable old e =
    let same : old_trades ≡ old = cc in
    (7, subst (λ (d : DatasetRow). uuids.parse_str d.id ≡ some 7) same refl)

abbrev pub upserted : Result DbError (Unit {0}) × CatalogStore
upserted =
    upsert_dataset db 9 (codes "c1") (8 ∷ []) (codes "trades") (codes "finance") (codes "csv")
      (codes "c1") (2 ∷ []) (some (serde.to_string (string (codes "x")))) s

upserted_done : upserted.0 ≡ ok tt
unfolding upsert_dataset
upserted_done = refl

upsert_dataset-get_example :
    (w : Uuid) × (get_dataset uuids serde (codes "finance") (codes "trades") upserted.1
      ≡ ok (
          some (
            dataset uuids serde db 9
              (codes "c1")
              8
              (codes "trades")
              (codes "finance")
              csv
              (codes "c1")
              (2 ∷ [])
              (string (codes "x"))
              s
              c1
              w)))
    × (((find (has_key (codes "finance") (codes "trades")) (old_trades ∷ []) ≡ none) × (w ≡ 8))
        ⊎ ((old : DatasetRow) × (find (has_key (codes "finance") (codes "trades")) (old_trades ∷ [])
              ≡ some old)
            × (uuids.parse_str old.id ≡ some w)))
upsert_dataset-get_example =
    upsert_dataset-get uuids serde db 9 (codes "c1") 8 (codes "trades") (codes "finance") csv
      (codes "c1") (2 ∷ []) (string (codes "x")) s c1 refl refl old_readable upserted_done

-- The catalog that shows the dataset under its old identifier.
abbrev pub shown : DatasetInfo
shown = record {
  id = 7;
  name = codes "trades";
  namespace = codes "finance";
  source_type = csv;
  coordinator_id = codes "c1";
  executor_endpoint = codes "10.0.0.5:50051";
  schema_ipc = 2 ∷ [];
  metadata = string (codes "x");
}

pub listed : list_datasets uuids serde none upserted.1 ≡ ok (shown ∷ [])
unfolding list_datasets upsert_dataset run write try_from
listed = refl

list_datasets_iff_example :
    Memᴰ shown (shown ∷ []) ↔ ((row : DatasetRow) × Shows uuids serde upserted.1 none shown row)
list_datasets_iff_example = list_datasets_iff uuids serde upserted.1 none (shown ∷ []) shown listed

abbrev c2 : CoordinatorRow
c2 = record c1 { id = codes "c2" }

abbrev two : CatalogStore
two = record { coordinators = c2 ∷ c1 ∷ []; datasets = record old_trades { is_active = true } ∷ [] }

abbrev trades_info : DatasetInfo
trades_info = record shown {
  source_type = parquet;
  executor_endpoint = codes "10.0.0.4:50051";
  schema_ipc = 1 ∷ [];
  metadata = Value.null;
}

two_listed :
    list_datasets uuids serde none (mark_coordinator_dead (codes "c2") two).1
    ≡ ok (trades_info ∷ [])
unfolding list_datasets mark_coordinator_dead try_from
two_listed = refl

mark_coordinator_dead_hides_example : codes "c1" ≢ codes "c2"
mark_coordinator_dead_hides_example =
    mark_coordinator_dead_hides uuids serde (codes "c2") two none (trades_info ∷ []) trades_info
      two_listed (Memᴰ.head refl)

abbrev pub probe : Probe
probe = record {
  csv_schema = λ path has_header delimiter. none;
  parquet_schema = λ path. none;
  write_schema = λ schema. ok (4 ∷ []);
}

abbrev pub cfg : DatasetConfig
cfg = DatasetConfig.csv_source (record {
  name = codes "trades";
  namespace = codes "finance";
  path = codes "/data/trades.csv";
  delimiter = b',';
  has_header = true;
})

abbrev reg : DatasetRegistration
reg = record {
  coordinator_id = codes "c1";
  dataset_id = 8 ∷ [];
  name = codes "trades";
  namespace = codes "finance";
  source_type = codes "csv";
  arrow_schema_ipc = 4 ∷ [];
  metadata_json = serde.to_string (metadata_json cfg);
}

pub nothing_read : serde.from_str [] ≡ none
unfolding run
nothing_read = refl

registered : to_registration probe uuids serde 8 cfg (codes "c1") ≡ ok reg
unfolding to_registration Config.name Config.namespace Config.source_type
registered = refl
