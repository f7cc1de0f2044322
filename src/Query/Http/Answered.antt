-- ===== src/Query/Http/Answered.antt =====
-- The response of `handle_query` to a statement that yields batches.
use elan.Common.{◌≡◌, ap, ◌∙◌, List, Option, Text, Result, ok}
use elan.Common.External.{UuidCodec}
use elan.Iam.Types.{Subject}
use elan.Iam.Optimizer.{DfError}
use elan.Query.RemoteScan.Execute.{RecordBatch}
use elan.Query.Session.{Session}
use elan.Query.Http.{
  Cells, Draws, QueryRequest, extract_subject, batches_to_response, handle_query, started, run,
  answer,
}

module _ (uuids : UuidCodec) (cells : Cells) (instance_name : Text) (draws : Draws)
    (build : Subject → Result Text Session)
    (sql : Session → Text → Result DfError (List RecordBatch)) where
  pub handle_query-ok :
      (header : Option Text) (body : QueryRequest) (ctx : Session) (batches : List RecordBatch)
      → build (extract_subject header) ≡ ok ctx
      → sql ctx body.sql ≡ ok batches
      → (handle_query uuids cells instance_name draws build sql header body).0
        ≡ ok (batches_to_response cells draws.query_id batches draws.duration_ms)
  unfolding handle_query started run answer
  handle_query-ok header body ctx batches built ran =
      let subject = extract_subject header in
      ap (λ r. (started uuids cells instance_name draws sql subject body r).0) built
      ∙ ap (λ o. (answer uuids cells instance_name draws subject body o).0) ran
