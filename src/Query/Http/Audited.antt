-- ===== src/Query/Http/Audited.antt =====
-- The audit trail of a query, and what the catalog shows.
use elan.Common.{
  length-map, ℕ, ◌≡◌, refl, sym, [], ◌∷◌, List, Option, some, Text, inl, inr, Result, ok, err,
  arith, Bool-cases, length, length-append, map,
}
use elan.Common.External.{Uuid, UuidCodec}
use elan.Domain.Arrow.{ScalarValue}
use elan.Iam.Types.{Subject}
use elan.Iam.Optimizer.{DfError}
use elan.Audit.Event.{
  AuditEvent, AuditPayload, QueryCompletedPayload, QueryFailedPayload, new_event, event_type,
}
use elan.Query.RemoteScan.Execute.{RecordBatch}
use elan.Query.Session.{Session}
use elan.Query.Http.{
  Cells, arrow_col_to_json, QueryRequest, QueryResponse, HttpError, Draws, all_rows,
  batches_to_response, row_count, extract_subject, handle_query, started, run, answer, event,
  submitted, audit_subject, is_access_denied, err500,
}

length-all_rows :
    (cells : Cells) (bs : List RecordBatch) → length (all_rows cells bs) ≡ row_count bs
unfolding all_rows
length-all_rows cells [] = refl
length-all_rows cells (b ∷ bs) = omega (
  arith,
  length-append (map (λ row. map (arrow_col_to_json cells) row) b.rows) (all_rows cells bs),
  length-map (λ (row : List ScalarValue). map (arrow_col_to_json cells) row) b.rows,
  length-all_rows cells bs,
)

length-batches_to_response :
    (cells : Cells) (id : Uuid) (bs : List RecordBatch) (d : ℕ)
    → length (batches_to_response cells id bs d).rows ≡ row_count bs
unfolding batches_to_response
length-batches_to_response cells id [] d = refl
length-batches_to_response cells id (b ∷ bs) d = length-all_rows cells (b ∷ bs)

response_id :
    (cells : Cells) (id : Uuid) (bs : List RecordBatch) (d : ℕ)
    → (batches_to_response cells id bs d).query_id ≡ id
unfolding batches_to_response
response_id cells id [] d = refl
response_id cells id (b ∷ bs) d = refl

-- How a query ends: its response and its last event agree.
pub data IsOutcome (query_id : Uuid) : Result HttpError QueryResponse → AuditPayload → Type 0 where
  completed :
      (r : QueryResponse) (p : QueryCompletedPayload)
      → r.query_id ≡ query_id
      → p.query_id ≡ query_id
      → p.rows_returned ≡ length r.rows
      → IsOutcome query_id (ok r) (AuditPayload.query_completed p)
  failed :
      (e : HttpError) (p : QueryFailedPayload)
      → p.query_id ≡ query_id
      → e.1.detail ≡ some p.error_msg
      → IsOutcome query_id (err e) (AuditPayload.query_failed p)

module _ (uuids : UuidCodec) (cells : Cells) (instance_name : Text) (draws : Draws)
    (build : Subject → Result Text Session)
    (sql : Session → Text → Result DfError (List RecordBatch)) (header : Option Text)
    (body : QueryRequest) where
  abbrev pub handled : Result HttpError QueryResponse × List AuditEvent
  handled = handle_query uuids cells instance_name draws build sql header body

  outcome :
      (s : Subject) (o : Result DfError (List RecordBatch))
      → (e : AuditEvent) × ((answer uuids cells instance_name draws s body o).1 ≡ e ∷ [])
        × IsOutcome draws.query_id (answer uuids cells instance_name draws s body o).0 e.payload
        × (e.subject.user_id ≡ s.user_id)
  unfolding answer event new_event audit_subject err500
  outcome s (ok bs) = (
    _,
    refl,
    IsOutcome.completed _ _ (response_id cells draws.query_id bs draws.duration_ms) refl
        (sym (length-batches_to_response cells draws.query_id bs draws.duration_ms)),
    refl,
  )
  outcome s (err e) = elim (Bool-cases (is_access_denied e)) [
    | inl b ↦ (_, refl, rw b (IsOutcome.failed _ _ refl refl), refl)
    | inr b ↦ (_, refl, rw b (IsOutcome.failed _ _ refl refl), refl)
  ]

  -- Once the session is built, a query leaves exactly two audit events: its submission, with the
  -- statement, and then its completion, with the number of rows of the response, or its failure,
  -- with the text that the response gives. All carry the identifier of the query and of the user.
  pub handle_query_trail :
      (ctx : Session)
      → build (extract_subject header) ≡ ok ctx
      → (first last : AuditEvent) × (handled.1 ≡ first ∷ last ∷ [])
        × (first.payload
            ≡ AuditPayload.query_submitted (record {
              query_id = draws.query_id;
              sql = body.sql;
              resolved_tables = [];
              executors = [];
            }))
        × IsOutcome draws.query_id handled.0 last.payload
        × (first.subject.user_id ≡ (extract_subject header).user_id)
        × (last.subject.user_id ≡ (extract_subject header).user_id)
  unfolding handle_query started run event submitted new_event event_type audit_subject
  handle_query_trail ctx built =
      let (last, trail, agrees, by_user) = outcome (extract_subject header) (sql ctx body.sql) in
      (
        event uuids cells instance_name draws (extract_subject header) body 0
            (submitted uuids cells instance_name draws body),
        last,
        rw (built, trail) refl,
        refl,
        rw built agrees,
        refl,
        by_user,
      )
