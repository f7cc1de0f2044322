-- ===== src/Examples/Screen.antt =====
-- Examples for what the terminal client shows.
use elan.Common.{
  ◌≡◌, ◌↔◌, refl, ◌++◌, [], ◌∷◌, List, Memᴰ, true, false, none, some, Text, codes, Result, ok, err,
  map, collect, take, reverse, arith,
}
use elan.Common.Decimal.{display_nat}
use elan.Common.External.{Value}
use elan.Domain.Proto.{AuditEventProto}
use elan.Iam.Types.{Subject}
use elan.Iam.Engine.{snapshot_engine}
use elan.Iam.CatalogFilter.{is_visible}
use elan.Iam.Optimizer.{DfError}
use elan.Audit.Event.{AuditEvent, AuditPayload, new_event, event_type}
use elan.Audit.Sink.{central_message}
use elan.Central.AuditService.{Received, forward}
use elan.Query.RemoteScan.Execute.{RecordBatch}
use elan.Query.Catalog.Provider.Tables.{names}
use elan.Query.Session.{Session, build_for_user}
use elan.Query.Session.Datasets.{under}
use elan.Query.Http.{
  Cells, Draws, HttpError, QueryResponse, NamespaceInfo, handle_catalog, handle_query,
  batches_to_response,
}
use elan.Tui.{Pane, App, load_catalog, run_query, handle_event, on_catalog, on_query_result}
use elan.Tui.Client.{Answer, Http, authorization, audit_messages, run_task, query, catalog}
use elan.Tui.Client.Catalog.{line_of, lines_under, catalog_shown_iff}
use elan.Tui.Client.Results.{answered, results_shown}
use elan.Tui.Log.{recent}
use elan.Tui.View.{Rect, Solver, table, dark_gray, pane_style, draw_results, audit_lines, items_of}
use elan.Tui.View.Recent.{run_events, shown, audit_lines-run_events}
use elan.Examples.Codecs.{uuids, serde}
use elan.Examples.Served.{ipc, factory, build}
use elan.Examples.Tui.{area}

abbrev blank : App Text
blank = record {
  active_pane = Pane.editor;
  editor = [];
  results = none;
  results_scroll = 0;
  audit_log = [];
  audit_scroll = 0;
  catalog = none;
  status_message = codes "Ready";
  session_id = codes "s1";
  username = codes "bob";
  is_loading = false;
}

abbrev pane : Rect
pane = record { x = 0; y = 0; width = 80; height = 24 }

-- A solver that gives every part the whole area.
abbrev solver : Solver
solver = record { split = λ d parts a n. a; inner = λ a. a }

abbrev show : Value → Text
show v = codes "?"

abbrev event : AuditEvent
event =
    new_event 3 9 (codes "elan-query") (codes "node")
      (record { user_id = codes "alice"; groups = []; session_id = none })
      (AuditPayload.query_submitted
        (record { query_id = 4; sql = codes "SELECT 1"; resolved_tables = []; executors = [] }))

abbrev print : AuditPayload → Result Text Text
print p = ok (codes "{}")

abbrev sent : AuditEventProto
sent = record {
  event_id = 3 ∷ [];
  event_type = codes "QuerySubmitted";
  occurred_at = none;
  source_service = codes "elan-query";
  user_id = codes "alice";
  session_id = [];
  payload_json = codes "{}";
}

all_sent : collect (central_message uuids print) (event ∷ []) ≡ ok (sent ∷ [])
unfolding central_message new_event event_type
all_sent = refl

audit_lines-run_events_example :
    (app : App Text) × (run_events true area
        (audit_messages (map ok (forward [] (Received.event sent ∷ []))))
        blank
      ≡ some app)
    × (audit_lines app pane ≡ take 24 (reverse (recent (shown event ∷ []))))
audit_lines-run_events_example =
    audit_lines-run_events uuids print true area (event ∷ []) (sent ∷ []) blank pane all_sent
      (omega arith) refl

-- The services as elan-query and the network between: a body is one of the two responses.
abbrev listing : List NamespaceInfo
listing = handle_catalog build (some (authorization (codes "bob")))

abbrev draws : Draws
draws = record {
  query_id = 11;
  fresh_session = 12;
  event_ids = λ n. n;
  times = λ n. n;
  duration_ms = 3;
}

abbrev cells : Cells
cells = record { is_null = λ v. true; cast = λ v. ok none; data_type = λ v. codes "Utf8" }

abbrev batch : RecordBatch
batch = record { schema = []; rows = [] ∷ [] }

abbrev response : QueryResponse
response = record { query_id = 11; columns = []; rows = [] ∷ []; duration_ms = 3 }

abbrev answer : Answer (Unit {0})
answer = record { is_success = true; status = codes "200 OK"; body = tt }

abbrev http : Http (Unit {0})
http = record {
  post = λ url auth req. ok answer;
  get = λ url auth. ok answer;
  json_query = λ b. ok response;
  json_catalog = λ b. ok listing;
  json_value = λ b. err [];
  text = λ b. ok [];
  show = show;
}

abbrev catalogued : App Text
catalogued = on_catalog listing blank

loaded :
    handle_event true area (run_task http [] (codes "bob") load_catalog) blank
    ≡ some (catalogued, [], false)
unfolding handle_event run_task catalog on_catalog
loaded = refl

abbrev bob : Subject
bob = record { user_id = codes "bob"; groups = [] }

catalog_shown_iff_example :
    Memᴰ (line_of (codes "prices")) (lines_under (codes "finance") (items_of catalogued.catalog))
    ↔ (Memᴰ (codes "prices") (names (under (codes "finance") factory.datasets_by_ns))
        × (is_visible
              (snapshot_engine uuids serde factory.iam_engine)
              bob
              (codes "finance")
              (codes "prices")
            ≡ true))
catalog_shown_iff_example =
    catalog_shown_iff area http [] uuids serde ipc factory build true blank catalogued answer []
      (codes "finance") (codes "prices") (refl, (refl, tt)) refl refl refl refl loaded

abbrev run_sql : Session → Text → Result DfError (List RecordBatch)
run_sql ctx sql = ok (batch ∷ [])

abbrev asked : Result HttpError QueryResponse
asked =
    answered uuids cells (codes "node") draws build run_sql (codes "bob") (codes "SELECT 1")
      (codes "s1")

asked_ok : asked ≡ ok response
unfolding handle_query batches_to_response
asked_ok = refl

abbrev finished : App Text
finished = on_query_result (ok response) blank

query_ended :
    handle_event true area
      (run_task http [] (codes "bob") (run_query (codes "SELECT 1") (codes "s1")))
      blank
    ≡ some (finished, [], false)
unfolding handle_event run_task query on_query_result
query_ended = refl

results_shown_example :
    draw_results show finished pane
    ≡ (
      table
          (record {
            title = codes " Results [" ++ (display_nat 1 ++ codes " rows] ");
            style = pane_style finished Pane.results;
          })
          []
          ([] ∷ [])
          []
          (record { fg = none; bg = some dark_gray; bold = false }),
      pane,
    )
      ∷ []
results_shown_example =
    results_shown uuids cells (codes "node") draws build run_sql area http [] show true blank
      finished answer [] (codes "SELECT 1") (codes "s1")
      (build_for_user uuids serde ipc bob factory) batch [] response pane refl refl refl refl
      asked_ok refl query_ended
