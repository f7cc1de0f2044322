-- ===== src/Query/RemoteScan/Execute.antt =====
-- crates/elan-query/src/planner/remote_scan.rs, `RemoteTableScanExec::execute`.
pub mod Ports
use elan.Common.{
  ℕ, ◌+◌, ◌%◌, ◌^◌, ◌++◌, [], ◌∷◌, List, Bool, true, false, ◌&&◌, Option, none, some, Text, codes,
  Result, ok, err, ◌>>=◌, map_err, ◌==◌, first, if◌then◌else◌,
}
use elan.Common.Decimal.{display_nat}
use elan.Domain.Arrow.{Schema, ScalarValue}
use elan.Domain.Plan.{RemoteTableScanExec}
use elan.Iam.Optimizer.{DfError}
use elan.Query.RemoteScan.Endpoint.{parse_endpoint}
use elan.Query.RemoteScan.Sql.{build_sql}

-- `arrow_array::RecordBatch`: the rows of the columns that the schema names.
pub record RecordBatch : Type 0 where
  pub schema : Schema
  pub rows : List (List ScalarValue)

pub record Response : Type 0 where
  pub is_success : Bool
  pub status : Text
  pub body : Result Text (List ℕ)

-- The `reqwest` client and the Arrow stream reader. A failing call returns the text of its error.
pub record Remote : Type 0 where
  pub post : Text → Text → Result Text Response
  pub text_or_default : Result Text (List ℕ) → Text
  pub read_stream : List ℕ → Result Text (List RecordBatch)

-- `ballista_port + 1` in `u16`: a panic (`none`) where overflow checks are on, else a wrap to 0.
unfoldable pub succ_u16 : Bool → ℕ → Option ℕ
succ_u16 overflow_checks port =
    if overflow_checks && port == 65535 then none else some ((port + 1) % 2 ^ 16)

unfoldable pub sql_url : Text → ℕ → Text
sql_url host http_port =
    codes "http://" ++ (host ++ (b':' ∷ (display_nat http_port ++ codes "/sql")))

module _ (remote : Remote) (schema : Schema) where
  -- The batches, with their own schema if there is one, else the stored one.
  unfoldable pub with_schema : List RecordBatch → List RecordBatch × Schema
  with_schema [] = ([], schema)
  with_schema (b ∷ bs) = (b ∷ bs, b.schema)

  unfoldable pub receive : Response → Result DfError (List RecordBatch × Schema)
  receive resp =
      if resp.is_success
      then (do
        ipc_bytes ← resp.body
        batches ← remote.read_stream ipc_bytes
        ok (with_schema batches))
      else err (
          codes "executor SQL service error ("
          ++ (resp.status ++ (codes "): " ++ remote.text_or_default resp.body)))

  unfoldable pub dispatch : Text → Text → Result DfError (List RecordBatch × Schema)
  unfolding receive with_schema
  dispatch url sql = remote.post url sql >>= receive

  send : Text → Option ℕ → Text → Option (Result DfError (List RecordBatch × Schema))
  send host none sql = none
  send host (some http_port) sql = some (dispatch (sql_url host http_port) sql)

module _ (overflow_checks : Bool) (remote : Remote) (scalar_to_string : ScalarValue → Text) where
  start :
      RemoteTableScanExec
      → Result DfError (Text × ℕ)
      → Option (Result DfError (List RecordBatch × Schema))
  start s (err e) = some (err e)
  start s (ok (host, ballista_port)) =
      send remote s.schema host (succ_u16 overflow_checks ballista_port)
        (build_sql scalar_to_string s)

  -- `none` is a panic of the worker.
  unfoldable pub execute : RemoteTableScanExec → Option (Result DfError (List RecordBatch × Schema))
  unfolding start send
  execute s = start s (parse_endpoint s.dataset.executor_endpoint)
