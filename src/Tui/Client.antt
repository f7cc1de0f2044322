-- ===== src/Tui/Client.antt =====
-- crates/elan-tui/src/client and the spawned tasks of main.rs. HTTP, JSON and the gRPC channel are
-- parameters.
pub mod Catalog
pub mod Results
use elan.Common.{
  ◌++◌, [], ◌∷◌, List, Bool, none, some, Text, codes, Result, ok, err, ◌>>=◌, Option, if◌then◌else◌,
}
use elan.Common.External.{Value, null}
use elan.Domain.Errors.{Status}
use elan.Domain.Proto.{AuditEventProto}
use elan.Query.Http.{QueryRequest, QueryResponse, NamespaceInfo}
use elan.Startup.Args.{query_url, central_url, username}
use elan.Tui.{App, TextArea, new_app, Task, load_catalog, run_query, AppEvent, audit_line}

-- A response of elan-query with its body, a value of `B`.
pub record Answer (B : Type 0) : Type 0 where
  pub is_success : Bool
  pub status : Text
  pub body : B

-- The `reqwest` client: a request with its URL and its `Authorization` header, and the readings of
-- a body.
pub record Http (B : Type 0) : Type 0 where
  pub post : Text → Text → QueryRequest → Result Text (Answer B)
  pub get : Text → Text → Result Text (Answer B)
  pub json_query : B → Result Text QueryResponse
  pub json_catalog : B → Result Text (List NamespaceInfo)
  pub json_value : B → Result Text Value
  pub text : B → Result Text Text
  pub show : Value → Text

value_or_null : Result Text Value → Value
value_or_null (ok v) = v
value_or_null (err e) = null

text_or_empty : Result Text Text → Text
text_or_empty (ok t) = t
text_or_empty (err e) = []

abbrev pub authorization : Text → Text
authorization username = codes "Bearer " ++ username

module _ {B : Type 0} (http : Http B) (base_url username : Text) where
  -- `QueryClient::query`
  unfoldable pub query : Text → Text → Result Text QueryResponse
  unfolding value_or_null
  query sql session_id = do
    resp ←
        http.post (base_url ++ codes "/api/v1/query") (authorization username)
          (record { sql = sql; session_id = some session_id })
    (if resp.is_success
        then http.json_query resp.body
        else err (
            codes "query failed ("
            ++ (resp.status
                ++ (codes "): " ++ http.show (value_or_null (http.json_value resp.body))))))

  -- `QueryClient::catalog`
  unfoldable pub catalog : Result Text (List NamespaceInfo)
  unfolding text_or_empty
  catalog = do
    resp ← http.get (base_url ++ codes "/api/v1/catalog") (authorization username)
    (if resp.is_success
        then http.json_catalog resp.body
        else err (
            codes "catalog request failed ("
            ++ (resp.status ++ (codes "): " ++ text_or_empty (http.text resp.body)))))

  catalog_event : Text → Result Text (List NamespaceInfo) → AppEvent
  catalog_event label (ok namespaces) = AppEvent.catalog_loaded namespaces
  catalog_event label (err e) = AppEvent.audit_message (label ++ e)

  -- The event that a spawned task sends.
  unfoldable pub run_task : Task → AppEvent
  unfolding catalog_event
  run_task load_catalog = catalog_event (codes "catalog error: ") catalog
  run_task (run_query sql session_id) = AppEvent.query_result (query sql session_id)

  -- The task that loads the catalog at the start.
  unfoldable pub first_catalog : AppEvent
  unfolding catalog_event
  first_catalog = catalog_event (codes "catalog load error: ") catalog

-- The loop over the audit stream: it ends at the first item that is no event.
unfoldable pub audit_messages : List (Result Status AuditEventProto) → List AppEvent
audit_messages [] = []
audit_messages (err e ∷ stream) = []
audit_messages (ok event ∷ stream) =
    AppEvent.audit_message (audit_line event) ∷ audit_messages stream

streamed : Result Text (List (Result Status AuditEventProto)) → List AppEvent
streamed (ok stream) = audit_messages stream
streamed (err e) = AppEvent.audit_message (codes "audit stream error: " ++ e) ∷ []

connected :
    {C : Type 0}
    → (C → Result Text (List (Result Status AuditEventProto)))
    → Result Text C
    → List AppEvent
unfolding streamed
connected stream_audit_events (ok central) = streamed (stream_audit_events central)
connected stream_audit_events (err e) =
    AppEvent.audit_message (codes "could not connect to central: " ++ e) ∷ []

-- The task of the audit stream, with the calls of `CentralClient`: it is spawned if a central
-- endpoint is given.
unfoldable pub audit_task :
    {C : Type 0}
    → (Text → Result Text C)
    → (C → Result Text (List (Result Status AuditEventProto)))
    → Option Text
    → List AppEvent
unfolding connected
audit_task connect stream_audit_events none = []
audit_task connect stream_audit_events (some central_endpoint) =
    connected stream_audit_events (connect central_endpoint)

-- The start of the client: its state, the events of the audit task, and that of the catalog task.
unfoldable pub opening :
    {E B C : Type 0}
    → TextArea E
    → Http B
    → (Text → Result Text C)
    → (C → Result Text (List (Result Status AuditEventProto)))
    → E
    → Text
    → List Text
    → App E × List AppEvent × AppEvent
opening area http connect stream_audit_events blank session_id args = (
  new_app area blank session_id (username args),
  audit_task connect stream_audit_events (central_url args),
  first_catalog http (query_url args) (username args),
)
