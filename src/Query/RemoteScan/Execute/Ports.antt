-- ===== src/Query/RemoteScan/Execute/Ports.antt =====
-- Where a scan is sent: the port above the one that its executor advertises.
use elan.Common.{ℕ, ◌+◌, ◌<◌, ◌≡◌, ◌++◌, ◌∷◌, Bool, none, some, Text, arith, if◌then◌else◌}
use elan.Common.Decimal.{display_nat}
use elan.Domain.Arrow.{ScalarValue}
use elan.Domain.Plan.{RemoteTableScanExec}
use elan.Query.RemoteScan.Endpoint.RoundTrip.{parse_endpoint-display}
use elan.Query.RemoteScan.Sql.{build_sql}
use elan.Query.RemoteScan.Execute.{Remote, succ_u16, sql_url, dispatch, execute}

module _ (overflow_checks : Bool) (remote : Remote) (scalar_to_string : ScalarValue → Text)
    (s : RemoteTableScanExec) (host : Text) where
  -- A scan whose executor advertises `host:port` posts its SQL to `/sql` at port + 1 of that host
  -- and returns what comes back, if the port lies below 65535.
  pub execute_lem :
      (port : ℕ)
      → s.dataset.executor_endpoint ≡ host ++ (b':' ∷ display_nat port)
      → port < 65535
      → execute overflow_checks remote scalar_to_string s
        ≡ some (dispatch remote s.schema (sql_url host (port + 1)) (build_sql scalar_to_string s))
  unfolding execute succ_u16
  execute_lem port e h = rw (e, parse_endpoint-display host port (omega arith)) (ground arith)

  -- With the port 65535 the scan panics where overflow checks are on, and is sent to port 0
  -- where they are off.
  pub execute_last_port :
      s.dataset.executor_endpoint ≡ host ++ (b':' ∷ display_nat 65535)
      → execute overflow_checks remote scalar_to_string s ≡ (
          if overflow_checks
          then none
          else some (dispatch remote s.schema (sql_url host 0) (build_sql scalar_to_string s)))
  unfolding execute succ_u16
  execute_last_port e = rw (e, parse_endpoint-display host 65535 (omega arith)) (ground arith)
