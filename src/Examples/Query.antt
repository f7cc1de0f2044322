-- ===== src/Examples/Query.antt =====
-- Examples for the sessions, catalogs, plans and queries of elan-query.
use elan.Common.{◌≡◌, refl, ◌++◌, [], ◌∷◌, ◌↔◌, none, some, Text, codes, Result, ok, arith}
use elan.Common.Decimal.{display_nat}
use elan.Common.External.{Value}
use elan.Domain.Arrow.{ScalarValue, Expr, binary_expr, column, literal, gt}
use elan.Domain.Catalog.{DatasetInfo, SourceType}
use elan.Domain.Plan.{
  RemoteTableScanExec, Operator, ExecutionPlan, remote_scan, operator, Plans, nil, cons,
}
use elan.Iam.Engine.{IamEngine, snapshot_engine}
use elan.Iam.Optimizer.{DfError}
use elan.Query.OptimizerRule.Enforcement.{rewrite, Rebuilds, IsFiltered, rewrite-IsFiltered}
use elan.Query.RemoteScan.Endpoint.{parse_endpoint}
use elan.Query.RemoteScan.Endpoint.RoundTrip.{
  IsEndpoint, parse_endpoint-display, parse_endpoint_sound,
}
use elan.Query.RemoteScan.Sql.{expr_to_sql}
use elan.Query.RemoteScan.Sql.Translated.{IsSimple, expr_to_sql_iff}
use elan.Examples.Iam.{alice, both}
use elan.Examples.Codecs.{uuids, serde}

abbrev pub trades_info : DatasetInfo
trades_info = record {
  id = 7;
  name = codes "trades";
  namespace = codes "finance";
  source_type = SourceType.csv;
  coordinator_id = codes "c1";
  executor_endpoint = codes "10.0.0.5:" ++ display_nat 50051;
  schema_ipc = [];
  metadata = Value.null;
}

abbrev pub prices_info : DatasetInfo
prices_info = record trades_info { name = codes "prices" }

abbrev scan_of : DatasetInfo → RemoteTableScanExec
scan_of d = record { dataset = d; schema = []; pushed_filters = []; limit = none }

abbrev engine : IamEngine
engine = snapshot_engine uuids serde both

abbrev rebuild : Operator → Plans → Result DfError ExecutionPlan
rebuild o cs = ok (operator o cs)

rebuilds : Rebuilds rebuild engine alice
rebuilds o cs = refl

abbrev join : Operator
join = record { name = codes "HashJoinExec"; schema = [] }

-- A join of a table that alice may not read and one that she may.
abbrev plan : ExecutionPlan
plan =
    operator join
      (cons (remote_scan (scan_of trades_info)) (cons (remote_scan (scan_of prices_info)) nil))

rewrite-IsFiltered_example :
    (p' : ExecutionPlan) × (rewrite rebuild engine alice plan ≡ ok p')
    × IsFiltered rebuild engine alice rebuilds plan p'
rewrite-IsFiltered_example = rewrite-IsFiltered rebuild engine alice rebuilds plan

parse_endpoint-display_example :
    parse_endpoint (codes "::1" ++ (b':' ∷ display_nat 50051)) ≡ ok (codes "::1", 50051)
parse_endpoint-display_example = parse_endpoint-display (codes "::1") 50051 (omega arith)

parse_endpoint_sound_example :
    IsEndpoint (codes "::1" ++ (b':' ∷ display_nat 50051)) (codes "::1") 50051
parse_endpoint_sound_example =
    parse_endpoint_sound (codes "::1" ++ (b':' ∷ display_nat 50051)) (codes "::1") 50051
      (parse_endpoint-display (codes "::1") 50051 (omega arith))

abbrev show_scalar : ScalarValue → Text
show_scalar v = codes "?"

abbrev condition : Expr
condition = binary_expr (column (codes "price")) gt (literal ScalarValue.null)

expr_to_sql_iff_example :
    ((t : Text) × (expr_to_sql show_scalar condition ≡ some t)) ↔ IsSimple condition
expr_to_sql_iff_example = expr_to_sql_iff show_scalar condition
