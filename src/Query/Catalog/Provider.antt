-- ===== src/Query/Catalog/Provider.antt =====
-- crates/elan-query/src/catalog/provider.rs: a hash map is an association list without repeated keys.
pub mod Visibility
pub mod Fetched
pub mod Tables
use elan.Common.{
  ℕ, [], ◌∷◌, List, Bool, true, false, Option, none, some, Text, codes, Result, ok, err, ◌>>=◌, map,
  map_err, ok_or, filter, text_eq, if◌then◌else◌, any,
}
use elan.Common.External.{UuidCodec, Serde, Value}
use elan.Domain.Errors.{Status, Code, not_found}
use elan.Domain.Proto.{DatasetProto}
use elan.Domain.Catalog.{DatasetInfo, try_from}
use elan.Iam.Types.{Subject}
use elan.Iam.Engine.{IamEngine}
use elan.Iam.CatalogFilter.{is_visible}
use elan.Query.Catalog.Table.{ArrowIpc, ElanTableProvider, new_table}

module _ {A : Type 0} where
  -- `HashMap::get`
  abbrev pub get : Text → List (Text × A) → Option A
  get k [] = none
  get k ((l, a) ∷ m) = if text_eq l k then some a else get k m

  -- `HashMap::insert`
  abbrev pub insert : Text → A → List (Text × A) → List (Text × A)
  insert k a [] = (k, a) ∷ []
  insert k a ((l, b) ∷ m) = if text_eq l k then (l, a) ∷ m else (l, b) ∷ insert k a m

abbrev pub keys : {A : Type 0} → List (Text × A) → List Text
keys m = map (λ e. e.0) m

pub record ElanSchemaProvider : Type 0 where
  pub namespace : Text
  pub datasets : List (Text × ElanTableProvider)
  pub iam_engine : IamEngine
  pub subject : Subject

unfoldable pub tables_of :
    ArrowIpc → List DatasetInfo → List (Text × ElanTableProvider) → List (Text × ElanTableProvider)
tables_of ipc [] tables = tables
tables_of ipc (ds ∷ rest) tables = tables_of ipc rest (insert ds.name (new_table ipc ds) tables)

unfoldable pub new_schema_provider :
    ArrowIpc → Text → List DatasetInfo → IamEngine → Subject → ElanSchemaProvider
new_schema_provider ipc namespace datasets iam_engine subject = record {
  namespace = namespace;
  datasets = tables_of ipc datasets [];
  iam_engine = iam_engine;
  subject = subject;
}

unfoldable pub is_offered : ElanSchemaProvider → Text → Bool
is_offered provider name = is_visible provider.iam_engine provider.subject provider.namespace name

unfoldable pub table_names : ElanSchemaProvider → List Text
table_names provider = filter (is_offered provider) (keys provider.datasets)

is_some : {A : Type 0} → Option A → Bool
is_some none = false
is_some (some a) = true

unfoldable pub table_exist : ElanSchemaProvider → Text → Bool
unfolding is_some
table_exist provider name = is_some (get name provider.datasets)

-- The error of `table`: the status of the call, or the text of a value that cannot be read.
pub data TableError : Type 0 where
  remote : Status → TableError
  unreadable : TableError

module _ (uuids : UuidCodec) (serde : Serde) where
  metadata_or_null : Option Value → Value
  metadata_or_null none = Value.null
  metadata_or_null (some v) = v

  -- The dataset of a message, the same in `table` and in `load_datasets` of session.rs.
  unfoldable pub dataset_of_proto : DatasetProto → Result TableError DatasetInfo
  unfolding metadata_or_null
  dataset_of_proto proto = do
    id ← ok_or unreadable (uuids.parse_str proto.dataset_id)
    source_type ← map_err (λ _. unreadable) (try_from proto.source_type)
    ok (record {
      id = id;
      name = proto.name;
      namespace = proto.namespace;
      source_type = source_type;
      coordinator_id = proto.coordinator_id;
      executor_endpoint = proto.executor_endpoint;
      schema_ipc = proto.arrow_schema_ipc;
      metadata = metadata_or_null (serde.from_str proto.metadata_json);
    })

  module _ (ipc : ArrowIpc) where
    abbrev pub TableResult : Type 0
    TableResult = Result TableError (Option ElanTableProvider) × ElanSchemaProvider

    store_table : ElanSchemaProvider → Text → Result TableError DatasetInfo → TableResult
    store_table provider name (err e) = (err e, provider)
    store_table provider name (ok ds) =
        let table = new_table ipc ds in
        (ok (some table), record provider { datasets = insert name table provider.datasets })

    pub is_not_found : Code → Bool
    is_not_found not_found = true
    is_not_found _ = false

    fetched : ElanSchemaProvider → Text → Result Status DatasetProto → TableResult
    fetched provider name (ok proto) = store_table provider name (dataset_of_proto proto)
    fetched provider name (err status) =
        if is_not_found status.code then (ok none, provider) else (err (remote status), provider)

    cached_or_fetched :
        (Text → Text → Result Status DatasetProto)
        → ElanSchemaProvider
        → Text
        → Option ElanTableProvider
        → TableResult
    cached_or_fetched central provider name (some t) = (ok (some t), provider)
    cached_or_fetched central provider name none =
        fetched provider name (central provider.namespace name)

    -- `table`, with the `get_dataset` call of the central catalog as an argument.
    unfoldable pub table :
        (Text → Text → Result Status DatasetProto) → Text → ElanSchemaProvider → TableResult
    unfolding cached_or_fetched fetched store_table is_not_found
    table central name provider =
        if is_offered provider name
        then cached_or_fetched central provider name (get name provider.datasets)
        else (ok none, provider)
