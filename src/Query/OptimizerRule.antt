-- ===== src/Query/OptimizerRule.antt =====
-- crates/elan-query/src/session.rs, lines 124-134: the optimizer rule of one user's session.
pub mod Enforcement
use elan.Common.{Option, none, some, Text}
use elan.Domain.Plan.{
  ExecutionPlan, remote_scan, empty_exec, operator, dataset_namespace, dataset_name,
}
use elan.Iam.Types.{Subject}
use elan.Iam.Engine.{IamEngine}
use elan.Iam.Optimizer
use elan.Iam.Optimizer.{IamFilterRule}

-- The closure given to `with_extractor`: a downcast to `RemoteTableScanExec`.
unfoldable pub scan_identity : ExecutionPlan → Option (Text × Text)
scan_identity (remote_scan s) = some (dataset_namespace s, dataset_name s)
scan_identity (empty_exec schema) = none
scan_identity (operator o cs) = none

unfoldable pub optimizer_rule : IamEngine → Subject → IamFilterRule
unfolding scan_identity
optimizer_rule engine subject =
    Optimizer.with_extractor (Optimizer.new engine subject) scan_identity
