-- ===== src/Central/CatalogStore.antt =====
-- crates/elan-central/src/db/catalog_store.rs, over the tables of migrations/0001_coordinators.sql
-- and migrations/0002_datasets.sql. `Utc::now()` is an argument.
pub mod Reads
pub mod Writes
pub mod Others
use elan.Common.{
  ℕ, ◌++◌, [], ◌∷◌, List, Bool, true, false, ◌&&◌, ◌||◌, not, Option, none, some, Text, text_eq,
  filter, find, any, map, Result, ok, err, map_err, collect, ok_or, unwrap_or_default,
  if◌then◌else◌, ◌>>=◌, ltb, ◌==◌,
}
use elan.Common.External.{Uuid, UuidCodec, Serde, Value}
use elan.Common.Exec.{Exec}
use elan.Common.Sorting.{sort_by}
use elan.Domain.Catalog.{DatasetInfo, SourceType, try_from}
use elan.Central.Database.{DbError, unique_violation, foreign_key_violation, decode_error}

pub record CoordinatorRow : Type 0 where
  pub id : Text
  pub environment : Text
  pub hostname : Text
  pub executor_endpoint : Text
  pub registered_at : ℕ
  pub last_heartbeat_at : ℕ
  pub is_alive : Bool

pub record DatasetRow : Type 0 where
  pub id : Text
  pub name : Text
  pub namespace : Text
  pub source_type : Text
  pub coordinator_id : Text
  pub executor_endpoint : Text
  pub arrow_schema_ipc : List ℕ
  pub metadata_json : Option Text
  pub registered_at : ℕ
  pub last_seen_at : ℕ
  pub is_active : Bool

pub record CatalogStore : Type 0 where
  pub coordinators : List CoordinatorRow
  pub datasets : List DatasetRow

-- How the database is set up: whether it enforces references, and whether it reports a used
-- primary key before it looks at the conflict target of an upsert.
pub record Setup : Type 0 where
  pub foreign_keys : Bool
  pub key_first : Bool

abbrev pub Catalog : Type 0 → Type 0
Catalog A = Exec DbError CatalogStore A

-- `UPDATE .. SET .. WHERE ..`
abbrev pub update : {A : Type 0} → (A → Bool) → (A → A) → List A → List A
update p f [] = []
update p f (x ∷ xs) = (if p x then f x else x) ∷ update p f xs

abbrev pub is_coordinator : Text → CoordinatorRow → Bool
is_coordinator id c = text_eq c.id id

abbrev pub has_dataset_id : Text → DatasetRow → Bool
has_dataset_id id d = text_eq d.id id

abbrev pub has_key : Text → Text → DatasetRow → Bool
has_key namespace name d = text_eq d.namespace namespace && text_eq d.name name

unfoldable pub upsert_coordinator : ℕ → Text → Text → Text → Text → Catalog (Unit {0})
upsert_coordinator now id environment hostname executor_endpoint s =
    let row : CoordinatorRow = record {
      id = id;
      environment = environment;
      hostname = hostname;
      executor_endpoint = executor_endpoint;
      registered_at = now;
      last_heartbeat_at = now;
      is_alive = true;
    } in
    let renewed : CoordinatorRow → CoordinatorRow =
      λ c. record row { id = c.id; registered_at = c.registered_at } in
    (
      ok tt,
      record s {
        coordinators =
            if any (is_coordinator id) s.coordinators
            then update (is_coordinator id) renewed s.coordinators
            else s.coordinators ++ row ∷ [];
      },
    )

unfoldable pub heartbeat : ℕ → Text → Catalog (Unit {0})
heartbeat now coordinator_id s =
    let seen : CoordinatorRow → CoordinatorRow =
      λ c. record c { last_heartbeat_at = now; is_alive = true } in
    (ok tt, record s { coordinators = update (is_coordinator coordinator_id) seen s.coordinators })

-- The endpoint of the registered coordinator, or an empty text.
abbrev pub endpoint_of : Text → List CoordinatorRow → Text
endpoint_of id cs = elim (find (is_coordinator id) cs) [ none ↦ [] | some c ↦ c.executor_endpoint ]

-- What `DO UPDATE SET` takes from the row that could not be inserted: its identifier and the time
-- of the first registration stay those of the old row.
abbrev pub refreshed : DatasetRow → DatasetRow → DatasetRow
refreshed row old = record old {
  source_type = row.source_type;
  coordinator_id = row.coordinator_id;
  executor_endpoint = row.executor_endpoint;
  arrow_schema_ipc = row.arrow_schema_ipc;
  metadata_json = row.metadata_json;
  last_seen_at = row.last_seen_at;
  is_active = true;
}

pub insert_or_update : Setup → DatasetRow → Catalog (Unit {0})
insert_or_update db row s =
    let used = any (has_dataset_id row.id) s.datasets in
    let taken = any (has_key row.namespace row.name) s.datasets in
    if used && (db.key_first || not taken)
    then (err unique_violation, s)
    else if db.foreign_keys && not (any (is_coordinator row.coordinator_id) s.coordinators)
    then (err foreign_key_violation, s)
    else if taken
    then (
      ok tt,
      record s { datasets = update (has_key row.namespace row.name) (refreshed row) s.datasets },
    )
    else (ok tt, record s { datasets = s.datasets ++ row ∷ [] })

unfoldable pub upsert_dataset :
    Setup → ℕ → Text → Text → Text → Text → Text → Text → List ℕ → Option Text → Catalog (Unit {0})
unfolding insert_or_update
upsert_dataset db now coordinator_id dataset_id name namespace source_type ignored arrow_schema_ipc
      metadata_json s =
    insert_or_update db
      (record {
        id = dataset_id;
        name = name;
        namespace = namespace;
        source_type = source_type;
        coordinator_id = coordinator_id;
        executor_endpoint = endpoint_of coordinator_id s.coordinators;
        arrow_schema_ipc = arrow_schema_ipc;
        metadata_json = metadata_json;
        registered_at = now;
        last_seen_at = now;
        is_active = true;
      })
      s

-- `JOIN coordinators c ON c.id = d.coordinator_id WHERE d.is_active = 1 AND c.is_alive = 1`
abbrev pub is_live : List CoordinatorRow → Text → Bool
is_live cs id = elim (find (is_coordinator id) cs) [ none ↦ false | some c ↦ c.is_alive ]

abbrev pub is_shown : List CoordinatorRow → DatasetRow → Bool
is_shown cs d = d.is_active && is_live cs d.coordinator_id

abbrev pub metadata_of : Serde → Option Text → Result DbError Value
metadata_of serde none = ok Value.null
metadata_of serde (some t) = ok_or decode_error (serde.from_str t)

abbrev pub row_to_dataset : UuidCodec → Serde → DatasetRow → Result DbError DatasetInfo
row_to_dataset uuids serde r = do
  id ← ok_or decode_error (uuids.parse_str r.id)
  source_type ← map_err (λ _. decode_error) (try_from r.source_type)
  metadata ← metadata_of serde r.metadata_json
  ok (record {
    id = id;
    name = r.name;
    namespace = r.namespace;
    source_type = source_type;
    coordinator_id = r.coordinator_id;
    executor_endpoint = r.executor_endpoint;
    schema_ipc = r.arrow_schema_ipc;
    metadata = metadata;
  })

-- `row.map(row_to_dataset).transpose()`
abbrev pub transposed : UuidCodec → Serde → Option DatasetRow → Result DbError (Option DatasetInfo)
transposed uuids serde none = ok none
transposed uuids serde (some r) = row_to_dataset uuids serde r >>= λ d. ok (some d)

unfoldable pub get_dataset :
    UuidCodec → Serde → Text → Text → CatalogStore → Result DbError (Option DatasetInfo)
get_dataset uuids serde namespace name s =
    transposed uuids serde
      (find (λ d. has_key namespace name d && is_shown s.coordinators d) s.datasets)

-- The order of texts that `ORDER BY` uses, byte by byte.
abbrev pub text_le : Text → Text → Bool
text_le [] t = true
text_le (x ∷ s) [] = false
text_le (x ∷ s) (y ∷ t) = let rest = text_le s t in ltb x y || ((x == y) && rest)

abbrev pub by_name : DatasetRow → DatasetRow → Bool
by_name a b =
    if text_eq a.namespace b.namespace
    then text_le a.name b.name
    else text_le a.namespace b.namespace

abbrev pub in_namespace : Option Text → DatasetRow → Bool
in_namespace none d = true
in_namespace (some ns) d = text_eq d.namespace ns

unfoldable pub list_datasets :
    UuidCodec → Serde → Option Text → CatalogStore → Result DbError (List DatasetInfo)
list_datasets uuids serde namespace_filter s = collect (row_to_dataset uuids serde) (
    sort_by by_name
      (filter (λ d. in_namespace namespace_filter d && is_shown s.coordinators d) s.datasets))

unfoldable pub deactivate_dataset : Text → Catalog (Unit {0})
deactivate_dataset dataset_id s =
    let hidden : DatasetRow → DatasetRow = λ d. record d { is_active = false } in
    (ok tt, record s { datasets = update (has_dataset_id dataset_id) hidden s.datasets })

unfoldable pub mark_coordinator_dead : Text → Catalog (Unit {0})
mark_coordinator_dead coordinator_id s =
    let dead : CoordinatorRow → CoordinatorRow = λ c. record c { is_alive = false } in
    (ok tt, record s { coordinators = update (is_coordinator coordinator_id) dead s.coordinators })
