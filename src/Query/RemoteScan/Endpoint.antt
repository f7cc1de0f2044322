-- ===== src/Query/RemoteScan/Endpoint.antt =====
-- crates/elan-query/src/planner/remote_scan.rs, `parse_endpoint`.
pub mod RoundTrip
use elan.Common.{
  ℕ, ◌^◌, ◌++◌, [], ◌∷◌, Option, none, some, Text, codes, Result, ok, err, ◌==◌, if◌then◌else◌,
}
use elan.Common.Decimal.{ParseIntError, error_text, parse_below}
use elan.Iam.Optimizer.{DfError}

-- What stands before and after the last `:`.
unfoldable pub rsplit_colon : Text → Option (Text × Text)
rsplit_colon [] = none
rsplit_colon (c ∷ s) = elim (rsplit_colon s) [
  | some (before, after) ↦ some (c ∷ before, after)
  | none ↦ if c == b':' then some ([], s) else none
]

parse_port : Text → Result ParseIntError ℕ → Result DfError (Text × ℕ)
parse_port host (ok port) = ok (host, port)
parse_port host (err e) = err (codes "invalid port in endpoint: " ++ error_text e)

split_endpoint : Text → Option (Text × Text) → Result DfError (Text × ℕ)
unfolding parse_port
split_endpoint endpoint none = err (codes "invalid executor endpoint: " ++ endpoint)
split_endpoint endpoint (some (host, port)) = parse_port host (parse_below (2 ^ 16) port)

unfoldable pub parse_endpoint : Text → Result DfError (Text × ℕ)
unfolding split_endpoint
parse_endpoint endpoint = split_endpoint endpoint (rsplit_colon endpoint)
