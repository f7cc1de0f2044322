-- ===== src/Query/OptimizerRule/Enforcement.antt =====
-- What the optimizer rule does to the scans of a plan.
use elan.Common.{
  ◌≡◌, refl, Bool, true, List, [], ◌∷◌, ◌++◌, filter, filter-append, All, Result, ok, ◌>>=◌, arith,
  if◌then◌else◌,
}
use elan.Domain.Arrow.{Schema}
use elan.Domain.Plan.{
  RemoteTableScanExec, Operator, ExecutionPlan, remote_scan, empty_exec, operator, Plans, nil, cons,
  plan_schema, dataset_namespace, dataset_name, scans, scans_of,
}
use elan.Iam.Types.{Subject}
use elan.Iam.Engine.{IamEngine}
use elan.Iam.CatalogFilter.{is_visible}
use elan.Iam.Optimizer.{DfError, new, with_extractor, apply_iam, apply_children}
use elan.Query.OptimizerRule.{optimizer_rule}

module _ (rebuild : Operator → Plans → Result DfError ExecutionPlan) (engine : IamEngine)
    (subject : Subject) where
  abbrev pub is_readable : RemoteTableScanExec → Bool
  is_readable s = is_visible engine subject (dataset_namespace s) (dataset_name s)

  abbrev pub rewrite : ExecutionPlan → Result DfError ExecutionPlan
  rewrite = apply_iam rebuild (optimizer_rule engine subject)

  abbrev rewrite_all : Plans → Result DfError Plans
  rewrite_all = apply_children rebuild (optimizer_rule engine subject)

  -- A scan stays exactly if its dataset is visible to the user.
  rewrite_scan :
      (s : RemoteTableScanExec)
      → rewrite (remote_scan s) ≡ ok (if is_readable s then remote_scan s else empty_exec s.schema)
  unfolding apply_iam optimizer_rule new with_extractor is_visible
  rewrite_scan s = ground arith

  rewrite_operator :
      (o : Operator) (cs : Plans)
      → rewrite (operator o cs) ≡ (rewrite_all cs >>= λ cs'. rebuild o cs')
  unfolding apply_iam optimizer_rule new with_extractor
  rewrite_operator o cs = ground arith

  rewrite_empty : (schema : Schema) → rewrite (empty_exec schema) ≡ ok (empty_exec schema)
  unfolding apply_iam
  rewrite_empty schema = ground arith

  rewrite_all_cons :
      (p : ExecutionPlan) (ps : Plans)
      → rewrite_all (cons p ps) ≡ (rewrite p >>= λ p'. rewrite_all ps >>= λ ps'. ok (cons p' ps'))
  unfolding apply_children
  rewrite_all_cons p ps = refl

  rewrite_all_nil : rewrite_all nil ≡ ok nil
  unfolding apply_children
  rewrite_all_nil = refl

  scans_remote :
      (s : RemoteTableScanExec) (b : Bool)
      → scans (if b then remote_scan s else empty_exec s.schema) ≡ (if b then s ∷ [] else [])
  unfolding scans
  scans_remote s b = ground arith

  -- What a rebuilt operator has to do with the children that it is given.
  abbrev pub Rebuilds : Type 0
  Rebuilds = (o : Operator) (cs : Plans) → rebuild o cs ≡ ok (operator o cs)

  module _ (rebuilds : Rebuilds) where
    -- The rewritten plan: its schema is kept, and of its scans the readable ones, in order.
    pub record IsFiltered (p p' : ExecutionPlan) : Type 0 where
      pub schema : plan_schema p' ≡ plan_schema p
      pub scanned : scans p' ≡ filter is_readable (scans p)

    mutual
      unfolding scans

      filtered : (p : ExecutionPlan) → (p' : ExecutionPlan) × (rewrite p ≡ ok p') × IsFiltered p p'
      filtered (remote_scan s) = (
        (if is_readable s then remote_scan s else empty_exec s.schema),
        rewrite_scan s,
        record { schema = ground arith; scanned = ground arith },
      )
      filtered (empty_exec schema) =
          (empty_exec schema, rewrite_empty schema, record { schema = refl; scanned = refl })
      filtered (operator o cs) =
          let (cs', e, f) = rewrite_all-filter cs in
          (
            operator o cs',
            rw (rewrite_operator, e) (rebuilds o cs'),
            record { schema = refl; scanned = f },
          )

      rewrite_all-filter :
          (ps : Plans)
          → (ps' : Plans) × (rewrite_all ps ≡ ok ps')
            × (scans_of ps' ≡ filter is_readable (scans_of ps))
      rewrite_all-filter nil = (nil, rewrite_all_nil, refl)
      rewrite_all-filter (cons p ps) =
          let (p', e, f) = filtered p in
          let (ps', e', f') = rewrite_all-filter ps in
          (
            cons p' ps',
            rw (rewrite_all_cons, e, e') refl,
            rw (filter-append is_readable (scans p) (scans_of ps), f.scanned, f') refl,
          )

    -- If DataFusion rebuilds an operator from any new children, the rule rewrites every plan: the
    -- new plan has the same schema, and reads exactly the datasets of the old one that the user may
    -- read, in the same order.
    pub rewrite-IsFiltered :
        (p : ExecutionPlan) → (p' : ExecutionPlan) × (rewrite p ≡ ok p') × IsFiltered p p'
    rewrite-IsFiltered p = filtered p

    abbrev pub AllReadable : List RemoteTableScanExec → Type 0
    AllReadable = All (λ s. is_readable s ≡ true)

    All-append_left : (xs ys : List RemoteTableScanExec) → AllReadable (xs ++ ys) → AllReadable xs
    All-append_left [] ys h = tt
    All-append_left (x ∷ xs) ys h = (h.0, All-append_left xs ys h.1)

    All-append_right : (xs ys : List RemoteTableScanExec) → AllReadable (xs ++ ys) → AllReadable ys
    All-append_right [] ys h = h
    All-append_right (x ∷ xs) ys h = All-append_right xs ys h.1

    mutual
      unfolding scans

      unchanged : (p : ExecutionPlan) → AllReadable (scans p) → rewrite p ≡ ok p
      unchanged (remote_scan s) h = rw (rewrite_scan, h.0) refl
      unchanged (empty_exec schema) h = rewrite_empty schema
      unchanged (operator o cs) h =
          rw (rewrite_operator, rewrite_all_of_readable cs h) (rebuilds o cs)

      rewrite_all_of_readable : (ps : Plans) → AllReadable (scans_of ps) → rewrite_all ps ≡ ok ps
      rewrite_all_of_readable nil h = rewrite_all_nil
      rewrite_all_of_readable (cons p ps) h =
          rw
            (
              rewrite_all_cons,
              unchanged p (All-append_left (scans p) (scans_of ps) h),
              rewrite_all_of_readable ps (All-append_right (scans p) (scans_of ps) h),
            )
            refl

    -- If DataFusion rebuilds an operator from any new children, a plan whose scans are all readable
    -- is left as it is.
    pub rewrite_of_readable : (p : ExecutionPlan) → AllReadable (scans p) → rewrite p ≡ ok p
    rewrite_of_readable p h = unchanged p h
