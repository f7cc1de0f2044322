-- ===== src/Iam/Optimizer.antt =====
-- crates/elan-iam/src/optimizer.rs
use elan.Common.{Option, none, some, Text, codes, text_eq, Result, ok, ◌>>=◌, if◌then◌else◌}
use elan.Domain.Plan.{
  Operator, ExecutionPlan, remote_scan, empty_exec, operator, Plans, nil, cons, plan_name,
  plan_schema,
}
use elan.Iam.Types.{Subject, AccessDecision}
use elan.Iam.Engine.{IamEngine}

-- A `DataFusionError`, by the text that it prints.
abbrev pub DfError : Type 0
DfError = Text

-- The callback of `with_extractor`.
abbrev pub Extractor : Type 0
Extractor = ExecutionPlan → Option (Text × Text)

pub record IamFilterRule : Type 0 where
  pub engine : IamEngine
  pub subject : Subject
  pub remote_scan_node_name : Text
  pub extract : Extractor

unfoldable pub new : IamEngine → Subject → IamFilterRule
new engine subject = record {
  engine = engine;
  subject = subject;
  remote_scan_node_name = codes "RemoteTableScanExec";
  extract = λ plan. none;
}

unfoldable pub with_extractor : IamFilterRule → Extractor → IamFilterRule
with_extractor rule extractor = record rule { extract = extractor }

-- `with_new_children` of the operators that DataFusion implements: it may refuse the children.
module _ (rebuild : Operator → Plans → Result DfError ExecutionPlan) (rule : IamFilterRule) where
  -- The match on the decision: a Deny replaces the node, an Allow goes on to `rest`.
  enforce :
      ExecutionPlan → AccessDecision → Result DfError ExecutionPlan → Result DfError ExecutionPlan
  enforce plan (AccessDecision.deny reason) rest = ok (empty_exec (plan_schema plan))
  enforce plan (AccessDecision.allow row_filter mask) rest = rest

  check_extracted :
      ExecutionPlan
      → Option (Text × Text)
      → Result DfError ExecutionPlan
      → Result DfError ExecutionPlan
  check_extracted plan none rest = rest
  check_extracted plan (some (namespace, name)) rest =
      enforce plan
        (rule.engine.check rule.subject (record { namespace = namespace; name = name })
          (codes "SELECT"))
        rest

  -- The head of `apply_iam`; `rest` is its recursion into the children.
  intercept : ExecutionPlan → Result DfError ExecutionPlan → Result DfError ExecutionPlan
  intercept plan rest =
      if text_eq (plan_name plan) rule.remote_scan_node_name
      then check_extracted plan (rule.extract plan) rest
      else rest

  unfoldable mutual
    unfolding intercept check_extracted enforce

    pub apply_iam : ExecutionPlan → Result DfError ExecutionPlan
    apply_iam (remote_scan s) = intercept (remote_scan s) (ok (remote_scan s))
    apply_iam (empty_exec schema) = intercept (empty_exec schema) (ok (empty_exec schema))
    apply_iam (operator o cs) =
        intercept (operator o cs) (apply_children cs >>= λ cs'. rebuild o cs')

    pub apply_children : Plans → Result DfError Plans
    apply_children nil = ok nil
    apply_children (cons p ps) = apply_iam p >>= λ p'. apply_children ps >>= λ ps'. ok (cons p' ps')

  -- `PhysicalOptimizerRule::optimize`
  pub optimize : ExecutionPlan → Result DfError ExecutionPlan
  optimize plan = apply_iam plan
