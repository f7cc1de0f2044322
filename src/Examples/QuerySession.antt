-- ===== src/Examples/QuerySession.antt =====
-- Examples for what elan-query loads, offers and audits.
use elan.Common.{
  ℕ, ◌≡◌, refl, [], ◌∷◌, List, Memᴰ, true, false, none, some, Text, codes, Result, ok, strip_suffix,
}
use elan.Common.External.{Uuid, Serde}
use elan.Domain.Catalog.{DatasetInfo}
use elan.Domain.Errors.{Status}
use elan.Domain.Proto.{DatasetProto}
use elan.Iam.Types.{
  Subject, ResourceId, Policy, is_allowed, matches_subject, matches_resource, matches_action,
}
use elan.Iam.Engine
use elan.Iam.Engine.{IamEngine, snapshot_engine, check}
use elan.Iam.CatalogFilter.{is_visible}
use elan.Iam.Optimizer.{DfError}
use elan.Audit.Event.{AuditEvent, AuditPayload}
use elan.Central.IamService.{list_policies}
use elan.Query.Catalog.Table.{ArrowIpc}
use elan.Query.Catalog.Provider.{
  ElanSchemaProvider, new_schema_provider, table, table_names, table_exist,
}
use elan.Query.Catalog.Provider.Visibility.{hidden_table_exists}
use elan.Query.Session.{load_iam_policies, Session, build_for_user}
use elan.Query.Session.Policies.{streamed, load_iam_policies-agrees}
use elan.Query.Http.{Cells, Draws, QueryRequest, extract_subject}
use elan.Query.Http.Audited.{IsOutcome, handled, handle_query_trail}
use elan.Query.RemoteScan.Execute.{RecordBatch}
use elan.Examples.Iam.{alice, both}
use elan.Examples.Query.{trades_info, prices_info}
use elan.Examples.Central.{db_text, granted, granted-IsSynced}
use elan.Examples.Codecs.{uuids, serde}

abbrev ipc : ArrowIpc
ipc = record { read_schema = λ bytes. none; project = λ schema columns. ok schema }

abbrev proto : DatasetProto
proto = record {
  dataset_id = 7 ∷ [];
  name = codes "prices";
  namespace = codes "finance";
  source_type = codes "csv";
  coordinator_id = codes "c1";
  executor_endpoint = codes "10.0.0.5:50051";
  arrow_schema_ipc = [];
  metadata_json = [];
}

abbrev other_proto : DatasetProto
other_proto = record proto { dataset_id = 8 ∷ []; namespace = codes "sales" }

abbrev central : Text → Text → Result Status DatasetProto
central namespace name = ok proto

trades_invisible :
    is_visible (snapshot_engine uuids serde both) alice (codes "finance") (codes "trades") ≡ false
unfolding is_visible snapshot_engine check Engine.decide Engine.applies Engine.before
    matches_subject matches_resource matches_action strip_suffix
trades_invisible = refl

-- The trades are in the central catalog, and alice sees the finance schema.
abbrev offered : List DatasetInfo
offered = trades_info ∷ []

abbrev finance : ElanSchemaProvider
finance = new_schema_provider ipc (codes "finance") offered (snapshot_engine uuids serde both) alice

hidden_table_exists_example :
    (¬ Memᴰ (codes "trades") (table_names finance))
    × (table uuids serde ipc central (codes "trades") finance ≡ (ok none, finance))
    × (table_exist finance (codes "trades") ≡ true)
hidden_table_exists_example =
    hidden_table_exists uuids serde ipc (codes "finance") (codes "trades") offered
      (snapshot_engine uuids serde both) alice central (Memᴰ.head refl) trades_invisible

abbrev found : DatasetInfo
found = record prices_info { executor_endpoint = codes "10.0.0.5:50051" }

abbrev items : List (Result Status DatasetProto)
items = ok proto ∷ ok other_proto ∷ []

abbrev sold : DatasetInfo
sold = record found { id = 8; namespace = codes "sales" }

abbrev new_v4 : ℕ → Uuid
new_v4 n = n

load_iam_policies-agrees_example :
    (ps : List Policy) × (load_iam_policies uuids new_v4
        (streamed (list_policies uuids db_text [] granted))
      ≡ ok ps)
    × ((serde : Serde) (s : Subject) (r : ResourceId) (action : Text)
        → is_allowed (check uuids serde ps s r action)
          ≡ is_allowed (check uuids serde granted.engine s r action))
load_iam_policies-agrees_example =
    load_iam_policies-agrees uuids db_text new_v4 granted granted-IsSynced

abbrev cells : Cells
cells = record { is_null = λ v. true; cast = λ v. ok none; data_type = λ v. codes "Utf8" }

abbrev draws : Draws
draws = record {
  query_id = 11;
  fresh_session = 12;
  event_ids = λ n. n;
  times = λ n. n;
  duration_ms = 3;
}

abbrev session : Session
session =
    build_for_user uuids serde ipc alice
      (record { iam_engine = both; datasets_by_ns = (codes "finance", found ∷ []) ∷ [] })

abbrev build : Subject → Result Text Session
build subject = ok session

-- One batch of one row and no columns.
abbrev sql : Session → Text → Result DfError (List RecordBatch)
sql ctx text = ok (record { schema = []; rows = [] ∷ [] } ∷ [])

abbrev body : QueryRequest
body = record { sql = codes "SELECT * FROM elan.finance.prices"; session_id = none }

abbrev Answered : Type 0
Answered =
    (first last : AuditEvent) × ((handled uuids cells (codes "q1") draws build sql
        (some (codes "Bearer alice")) body).1
      ≡ first ∷ last ∷ [])
    × (first.payload
        ≡ AuditPayload.query_submitted
            (record { query_id = 11; sql = body.sql; resolved_tables = []; executors = [] }))
    × IsOutcome 11
        (handled uuids cells (codes "q1") draws build sql (some (codes "Bearer alice")) body).0
        last.payload
    × (first.subject.user_id ≡ (extract_subject (some (codes "Bearer alice"))).user_id)
    × (last.subject.user_id ≡ (extract_subject (some (codes "Bearer alice"))).user_id)

handle_query_trail_example : Answered
handle_query_trail_example =
    handle_query_trail uuids cells (codes "q1") draws build sql (some (codes "Bearer alice")) body
      session refl
