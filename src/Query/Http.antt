-- ===== src/Query/Http.antt =====
-- crates/elan-query/src/http/query.rs. The state is the list of the events that the sink was asked to
-- publish, in order; what the sink answers is dropped. The clock and fresh identifiers are arguments.
pub mod Answered
pub mod Audited
pub mod Listing
use elan.Common.{
  ℕ, ◌+◌, ◌-◌, ◌++◌, [], ◌∷◌, List, Bool, true, false, ◌||◌, Option, none, some, Text, codes,
  Result, ok, err, map, strip_prefix, length, if◌then◌else◌,
}
use elan.Common.External.{Uuid, UuidCodec, Value, null, string}
use elan.Iam.Types.{Subject}
use elan.Iam.Optimizer.{DfError}
use elan.Domain.Arrow.{Schema, ScalarValue, Field}
use elan.Audit.Event.{AuditEvent, AuditPayload, AuditSubject, new_event}
use elan.Query.RemoteScan.Execute.{RecordBatch}
use elan.Query.Catalog.Provider.{ElanSchemaProvider, table_names}
use elan.Query.Catalog.CatalogProvider.{ElanCatalogProvider, schema, schema_names}
use elan.Query.Session.{Session}
use elan.Central.CatalogService.{contains_text}

pub record QueryRequest : Type 0 where
  pub sql : Text
  pub session_id : Option Text

pub record QueryResponse : Type 0 where
  pub query_id : Uuid
  pub columns : List Text
  pub rows : List (List Value)
  pub duration_ms : ℕ

pub data StatusCode : Type 0 where
  forbidden internal_server_error : StatusCode

pub record ErrorResponse : Type 0 where
  pub error : Text
  pub detail : Option Text

abbrev pub HttpError : Type 0
HttpError = StatusCode × ErrorResponse

unfoldable pub err500 : Text → Text → HttpError
err500 error detail = (internal_server_error, record { error = error; detail = some detail })

or_anonymous : Option Text → Text
or_anonymous none = codes "anonymous"
or_anonymous (some t) = t

bearer : Option Text → Option Text
bearer none = none
bearer (some s) = strip_prefix s (codes "Bearer ")

-- The argument is the authorization header, if it is there and is a text.
unfoldable pub extract_subject : Option Text → Subject
unfolding or_anonymous bearer
extract_subject header = record { user_id = or_anonymous (bearer header); groups = [] }

-- What the `arrow` crates tell of a cell: whether it is null, the cell of its column after the cast
-- of the column to UTF-8, and the name of the column's type.
pub record Cells : Type 0 where
  pub is_null : ScalarValue → Bool
  pub cast : ScalarValue → Result Text (Option Text)
  pub data_type : ScalarValue → Text

-- A cell that the cast leaves null is the text "null".
text_or_null : Option Text → Text
text_or_null none = codes "null"
text_or_null (some s) = s

cast_to_json : Text → Result Text (Option Text) → Value
cast_to_json data_type (ok s) = string (text_or_null s)
cast_to_json data_type (err e) = string (b'<' ∷ (data_type ++ codes ">"))

unfoldable pub arrow_col_to_json : Cells → ScalarValue → Value
unfolding cast_to_json text_or_null
arrow_col_to_json cells v =
    if cells.is_null v then null else cast_to_json (cells.data_type v) (cells.cast v)

module _ (cells : Cells) where
  unfoldable pub all_rows : List RecordBatch → List (List Value)
  all_rows [] = []
  all_rows (b ∷ bs) = map (λ row. map (arrow_col_to_json cells) row) b.rows ++ all_rows bs

  unfoldable pub batches_to_response : Uuid → List RecordBatch → ℕ → QueryResponse
  unfolding all_rows
  batches_to_response query_id [] duration_ms = record {
    query_id = query_id;
    columns = [];
    rows = [];
    duration_ms = duration_ms;
  }
  batches_to_response query_id (b ∷ bs) duration_ms = record {
    query_id = query_id;
    columns = map (λ (f : Field). f.name) b.schema;
    rows = all_rows (b ∷ bs);
    duration_ms = duration_ms;
  }

abbrev pub row_count : List RecordBatch → ℕ
row_count [] = 0
row_count (b ∷ bs) = length b.rows + row_count bs

or_fresh : Option Text → Text → Text
or_fresh none fresh = fresh
or_fresh (some t) fresh = t

-- What one request draws from the outside: identifiers, and the clock at each event.
pub record Draws : Type 0 where
  pub query_id : Uuid
  pub fresh_session : Uuid
  pub event_ids : ℕ → Uuid
  pub times : ℕ → ℕ
  pub duration_ms : ℕ

unfoldable pub is_access_denied : Text → Bool
is_access_denied e =
    contains_text (codes "AccessDenied") e || contains_text (codes "permission denied") e

module _ (uuids : UuidCodec) (cells : Cells) (instance_name : Text) where
  audit_subject : Draws → Subject → QueryRequest → AuditSubject
  audit_subject draws subject body = record {
    user_id = subject.user_id;
    groups = subject.groups;
    session_id = some (or_fresh body.session_id (uuids.to_string draws.fresh_session));
  }

  event : Draws → Subject → QueryRequest → ℕ → AuditPayload → AuditEvent
  event draws subject body n payload =
      new_event (draws.event_ids n) (draws.times n) (codes "elan-query") instance_name
        (audit_subject draws subject body) payload

  submitted : Draws → QueryRequest → AuditPayload
  submitted draws body =
      AuditPayload.query_submitted
        (record { query_id = draws.query_id; sql = body.sql; resolved_tables = []; executors = [] })

  answer :
      Draws
      → Subject
      → QueryRequest
      → Result DfError (List RecordBatch)
      → Result HttpError QueryResponse × List AuditEvent
  answer draws subject body (ok batches) = (
    ok (batches_to_response cells draws.query_id batches draws.duration_ms),
    event draws subject body 1 (
          AuditPayload.query_completed (record {
            query_id = draws.query_id;
            duration_ms = draws.duration_ms;
            rows_returned = row_count batches;
            bytes_scanned = 0;
          }))
        ∷ [],
  )
  answer draws subject body (err e) = (
    (if is_access_denied e
        then err (forbidden, record { error = codes "AccessDenied"; detail = some e })
        else err (err500 (codes "query execution failed") e)),
    event draws subject body 1 (
          AuditPayload.query_failed (record {
            query_id = draws.query_id;
            duration_ms = draws.duration_ms;
            error_kind = codes "DataFusionError";
            error_msg = e;
          }))
        ∷ [],
  )

  run :
      Draws
      → Subject
      → QueryRequest
      → Result DfError (List RecordBatch)
      → Result HttpError QueryResponse × List AuditEvent
  run draws subject body df_result =
      let (response, published) = answer draws subject body df_result in
      (response, event draws subject body 0 (submitted draws body) ∷ published)

  started :
      Draws
      → (Session → Text → Result DfError (List RecordBatch))
      → Subject
      → QueryRequest
      → Result Text Session
      → Result HttpError QueryResponse × List AuditEvent
  started draws sql subject body (err e) = (err (err500 (codes "session build failed") e), [])
  started draws sql subject body (ok ctx) = run draws subject body (sql ctx body.sql)

  -- `build` is `build_for_user` of the factory, `sql` plans and collects a statement in DataFusion.
  unfoldable pub handle_query :
      Draws
      → (Subject → Result Text Session)
      → (Session → Text → Result DfError (List RecordBatch))
      → Option Text
      → QueryRequest
      → Result HttpError QueryResponse × List AuditEvent
  unfolding started run answer event submitted audit_subject or_fresh
  handle_query draws build sql header body =
      let subject = extract_subject header in started draws sql subject body (build subject)

pub record DatasetSummary : Type 0 where
  pub name : Text
  pub source_type : Text
  pub coordinator_id : Text

pub record NamespaceInfo : Type 0 where
  pub name : Text
  pub datasets : List DatasetSummary

unfoldable pub summary : Text → DatasetSummary
summary name = record { name = name; source_type = codes "unknown"; coordinator_id = [] }

namespace_info : Text → ElanSchemaProvider → NamespaceInfo
namespace_info ns_name schema = record {
  name = ns_name;
  datasets = map summary (table_names schema);
}

-- The loop over the names of the schemas: a name without a schema is passed over.
pushed : Text → Option ElanSchemaProvider → List NamespaceInfo → List NamespaceInfo
pushed ns_name none namespaces = namespaces
pushed ns_name (some schema) namespaces = namespace_info ns_name schema ∷ namespaces

namespaces_of : ElanCatalogProvider → List Text → List NamespaceInfo
namespaces_of catalog [] = []
namespaces_of catalog (ns_name ∷ names) =
    pushed ns_name (schema ns_name catalog) (namespaces_of catalog names)

-- A session that cannot be built is replaced by one without the catalog "elan".
catalog_of : Result Text Session → List NamespaceInfo
catalog_of (ok ctx) = namespaces_of ctx.catalog (schema_names ctx.catalog)
catalog_of (err e) = []

unfoldable pub handle_catalog : (Subject → Result Text Session) → Option Text → List NamespaceInfo
unfolding catalog_of namespaces_of pushed namespace_info summary
handle_catalog build header = catalog_of (build (extract_subject header))
