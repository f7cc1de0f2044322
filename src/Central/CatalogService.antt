-- ===== src/Central/CatalogService.antt =====
-- crates/elan-central/src/grpc/catalog_svc.rs. A stream is the list of its messages.
pub mod Search
use elan.Common.{
  [], ◌∷◌, ◌++◌, List, Bool, ◌||◌, none, Text, codes, Result, ok, ◌>>=◌, map, map_err, filter,
  ok_or, none_if_empty, text_eq, if◌then◌else◌, true, false,
}
use elan.Common.External.{UuidCodec, Serde}
use elan.Domain.Errors.{Status, not_found}
use elan.Domain.Proto.{DatasetProto}
use elan.Domain.Catalog.{DatasetInfo, display}
use elan.Central.Database.{DbError, to_status}
use elan.Central.CatalogStore
use elan.Central.CatalogStore.{CatalogStore}

-- `str::starts_with` of a text.
abbrev pub starts_with : Text → Text → Bool
starts_with [] t = true
starts_with (x ∷ s) [] = false
starts_with (x ∷ s) (y ∷ t) =
    let rest = starts_with s t in if text_eq (x ∷ []) (y ∷ []) then rest else false

-- `str::contains` of a text.
abbrev pub contains_text : Text → Text → Bool
contains_text s [] = starts_with s []
contains_text s (y ∷ t) = starts_with s (y ∷ t) || contains_text s t

module _ (uuids : UuidCodec) (serde : Serde) (db_text : DbError → Text) where
  unfoldable pub dataset_to_proto : DatasetInfo → DatasetProto
  dataset_to_proto d = record {
    dataset_id = uuids.to_string d.id;
    name = d.name;
    namespace = d.namespace;
    source_type = display d.source_type;
    coordinator_id = d.coordinator_id;
    executor_endpoint = d.executor_endpoint;
    arrow_schema_ipc = d.schema_ipc;
    metadata_json = serde.to_string d.metadata;
  }

  abbrev pub missing : Text → Text → Status
  missing namespace name = record {
    code = not_found;
    message = codes "dataset not found: " ++ (namespace ++ (b'.' ∷ name));
  }

  unfoldable pub get_dataset : Text → Text → CatalogStore → Result Status DatasetProto
  get_dataset namespace name s = do
    found ← map_err (to_status db_text) (CatalogStore.get_dataset uuids serde namespace name s)
    dataset ← ok_or (missing namespace name) found
    ok (dataset_to_proto dataset)

  unfoldable pub list_datasets : Text → CatalogStore → Result Status (List DatasetProto)
  list_datasets namespace_filter s = do
    datasets ←
        map_err (to_status db_text)
          (CatalogStore.list_datasets uuids serde (none_if_empty namespace_filter) s)
    ok (map dataset_to_proto datasets)

  -- `to_lowercase` is that of the Unicode tables.
  unfoldable pub search_datasets :
      (Text → Text) → Text → CatalogStore → Result Status (List DatasetProto)
  search_datasets to_lowercase query s = do
    all ← map_err (to_status db_text) (CatalogStore.list_datasets uuids serde none s)
    let wanted : DatasetInfo → Bool = λ d.
        contains_text (to_lowercase query) (to_lowercase d.name)
        || contains_text (to_lowercase query) (to_lowercase d.namespace)
    ok (map dataset_to_proto (filter wanted all))
