-- ===== src/Executor/SqlService.antt =====
-- crates/elan-executor/src/sql_service.rs and auth.rs. DataFusion and the IPC writer are parameters.
pub mod Dispatch
use elan.Common.{
  ℕ, ◌++◌, [], ◌∷◌, List, Bool, true, false, Option, none, some, Text, codes, Result, ok, err,
  ◌>>=◌, text_eq,
}
use elan.Common.External.{Value, Entries, bool, object, end, entry}
use elan.Domain.Arrow.{Schema}
use elan.Executor.Config.{ObjectStoreConfig, SessionApi, with_store, register_all}
use elan.Query.RemoteScan.Execute.{RecordBatch}

pub data StatusCode : Type 0 where
  okay bad_request internal_server_error : StatusCode

pub record HttpResponse : Type 0 where
  pub status : StatusCode
  pub content_type : Option Text
  pub body : List ℕ

-- What the service calls of DataFusion and the `arrow` crates, beside `SessionApi`. A `StreamWriter`
-- is the bytes that it has written.
pub record Arrow (C : Type 0) : Type 0 where
  pub from_utf8 : List ℕ → Result Text Text
  pub sql : C → Text → Result Text (List RecordBatch)
  pub new_writer : Schema → Result Text (List ℕ)
  pub write : List ℕ → RecordBatch → Result Text (List ℕ)
  pub finish : List ℕ → Result Text (List ℕ)

pub record SqlServiceState (P : Type 0) : Type 0 where
  pub providers : List (Text × P)
  pub object_store : Option ObjectStoreConfig

module _ {C P S : Type 0} (api : SessionApi C P S) where
  -- The session of one request.
  unfoldable pub session : SqlServiceState P → Result Text C
  session state =
      with_store api state.object_store api.new >>= λ ctx. register_all api state.providers ctx

abbrev pub failure : StatusCode → Text → HttpResponse
failure status text = record { status = status; content_type = none; body = text }

abbrev pub stream_of : List ℕ → HttpResponse
stream_of bytes = record {
  status = okay;
  content_type = some (codes "application/vnd.apache.arrow.stream");
  body = bytes;
}

module _ {C : Type 0} (arrow : Arrow C) where
  unfoldable pub write_all : List ℕ → List RecordBatch → Result Text (List ℕ)
  write_all w [] = arrow.finish w
  write_all w (b ∷ bs) = arrow.write w b >>= λ w'. write_all w' bs

  -- The stream of the schema of the first batch and of all batches.
  unfoldable pub encode : RecordBatch → List RecordBatch → Result Text (List ℕ)
  unfolding write_all
  encode b bs = arrow.new_writer b.schema >>= λ w. write_all w (b ∷ bs)

  -- `let _ = w.finish()`: the buffer holds what was written, whether the end mark failed or not.
  finished : List ℕ → Result Text (List ℕ) → List ℕ
  finished w (ok bytes) = bytes
  finished w (err e) = w

  ended : Result Text (List ℕ) → List ℕ
  ended (ok w) = finished w (arrow.finish w)
  ended (err e) = []

  -- The answer without batches: the stream of the empty schema.
  unfoldable pub empty_stream : List ℕ
  unfolding ended finished
  empty_stream = ended (arrow.new_writer [])

  encoded : Result Text (List ℕ) → HttpResponse
  encoded (ok bytes) = stream_of bytes
  encoded (err e) = failure internal_server_error e

  answered : Result Text (List RecordBatch) → HttpResponse
  answered (err e) = failure bad_request e
  answered (ok []) = stream_of empty_stream
  answered (ok (b ∷ bs)) = encoded (encode b bs)

  run : Text → Result Text C → HttpResponse
  run sql (err e) = failure internal_server_error e
  run sql (ok ctx) = answered (arrow.sql ctx sql)

  module _ {P S : Type 0} (api : SessionApi C P S) (state : SqlServiceState P) where
    decoded : Result Text Text → HttpResponse
    decoded (err e) = failure bad_request (codes "invalid UTF-8: " ++ e)
    decoded (ok sql) = run sql (session api state)

    unfoldable pub handle_sql : List ℕ → HttpResponse
    unfolding decoded run answered encoded
    handle_sql body = decoded (arrow.from_utf8 body)

-- `resp["allowed"].as_bool().unwrap_or(false)`
field : Text → Entries → Option Value
field k end = none
field k (entry l v rest) =
    let later = field k rest in elim (text_eq l k) [ true ↦ some v | false ↦ later ]

unfoldable pub allowed_of : Value → Bool
unfolding field
allowed_of (object entries) = elim (field (codes "allowed") entries) [
  | some (bool b) ↦ b
  | _ ↦ false
]
allowed_of v = false

-- `AuthClient::check`, over the `GET` of a JSON value.
unfoldable pub check : (Text → Result Text Value) → Text → Text → Text → Result Text Bool
check get coordinator_url dataset caller =
    get (
      coordinator_url
      ++ (codes "/auth/check?dataset=" ++ (dataset ++ (codes "&caller=" ++ caller))))
    >>= λ resp. ok (allowed_of resp)
