-- ===== src/Executor/SqlService/Dispatch.antt =====
-- A scan of elan-query meets the SQL service of an executor.
use elan.Common.{
  ◌≡◌, refl, ◌++◌, [], ◌∷◌, List, Bool, true, false, Text, codes, Result, ok, err, All,
}
use elan.Domain.Arrow.{Schema}
use elan.Iam.Optimizer.{DfError}
use elan.Executor.Config.{SessionApi}
use elan.Executor.SqlService.{
  StatusCode, okay, bad_request, internal_server_error, HttpResponse, Arrow, SqlServiceState,
  session, encode, empty_stream, encoded, answered, run, decoded, handle_sql,
}
use elan.Query.RemoteScan.Execute.{RecordBatch, Response, Remote, receive, with_schema, dispatch}

abbrev is_success : StatusCode → Bool
is_success okay = true
is_success bad_request = false
is_success internal_server_error = false

module _ {C P S : Type 0} (api : SessionApi C P S) (arrow : Arrow C) (remote : Remote)
    (status_text : StatusCode → Text) where
  -- The response as the client receives it.
  abbrev pub received : HttpResponse → Response
  received h = record {
    is_success = is_success h.status;
    status = status_text h.status;
    body = ok h.body;
  }

  -- What is relied on of HTTP and of the Arrow stream format: a text body is read as it was sent,
  -- batches of one schema can be written, and written batches are read back.
  pub record IsFaithful : Type 0 where
    pub text_kept : (t : Text) → remote.text_or_default (ok t) ≡ t
    pub stream_kept :
        (b : RecordBatch) (bs : List RecordBatch)
        → All (λ (o : RecordBatch). o.schema ≡ b.schema) bs
        → (bytes : Text) × (encode arrow b bs ≡ ok bytes) × (remote.read_stream bytes ≡ ok (b ∷ bs))
    pub empty_kept : remote.read_stream (empty_stream arrow) ≡ ok []

  -- The batches of one result have one schema.
  abbrev pub IsUniform : Result Text (List RecordBatch) → Type 0
  IsUniform (err e) = Unit
  IsUniform (ok []) = Unit
  IsUniform (ok (b ∷ bs)) = All (λ (o : RecordBatch). o.schema ≡ b.schema) bs

  module _ (schema : Schema) where
    -- What a statement's result on the executor is to the scan.
    abbrev pub outcome : Result Text (List RecordBatch) → Result DfError (List RecordBatch × Schema)
    outcome (err e) =
        err
          (codes "executor SQL service error (" ++ (status_text bad_request ++ (codes "): " ++ e)))
    outcome (ok []) = ok ([], schema)
    outcome (ok (b ∷ bs)) = ok (b ∷ bs, b.schema)

    module _ (faithful : IsFaithful) where
      answered_lem :
          (r : Result Text (List RecordBatch))
          → IsUniform r
          → receive remote schema (received (answered arrow r)) ≡ outcome r
      unfolding answered encoded receive with_schema
      answered_lem (err e) u = rw (faithful.text_kept e) refl
      answered_lem (ok []) u = rw faithful.empty_kept refl
      answered_lem (ok (b ∷ bs)) u =
          let (bytes, written, read) = faithful.stream_kept b bs u in rw (written, read) refl

      -- A scan that reaches an executor whose session can be built, with a statement in UTF-8 whose
      -- results are of one schema, ends as its SQL ends there, if HTTP and the Arrow stream format
      -- keep what is sent: with the batches and their schema, with no batches and the stored
      -- schema, or with an error that names the executor's.
      pub dispatch-handle_sql :
          (state : SqlServiceState P) (ctx : C) (url sql : Text)
          → arrow.from_utf8 sql ≡ ok sql
          → session api state ≡ ok ctx
          → IsUniform (arrow.sql ctx sql)
          → remote.post url sql ≡ ok (received (handle_sql arrow api state sql))
          → dispatch remote schema url sql ≡ outcome (arrow.sql ctx sql)
      unfolding dispatch handle_sql decoded run
      dispatch-handle_sql state ctx url sql utf8 built uniform reached =
          rw (reached, utf8, built) (answered_lem (arrow.sql ctx sql) uniform)
