-- ===== src/Domain/Plan.antt =====
-- DataFusion physical plans as elan sees them: its own leaf `RemoteTableScanExec`
-- (crates/elan-query/src/planner/remote_scan.rs), the `EmptyExec` that it builds, and any other
-- operator with its children.
use elan.Common.{ℕ, ◌++◌, [], ◌∷◌, List, Option, Text, codes}
use elan.Domain.Arrow.{Schema, Expr}
use elan.Domain.Catalog.{DatasetInfo}

pub record RemoteTableScanExec : Type 0 where
  pub dataset : DatasetInfo
  pub schema : Schema
  pub pushed_filters : List Expr
  pub limit : Option ℕ

pub record Operator : Type 0 where
  pub name : Text
  pub schema : Schema

mutual
  pub data ExecutionPlan : Type 0 where
    remote_scan : RemoteTableScanExec → ExecutionPlan
    empty_exec : Schema → ExecutionPlan
    operator : Operator → Plans → ExecutionPlan

  pub data Plans : Type 0 where
    nil : Plans
    cons : ExecutionPlan → Plans → Plans

-- `ExecutionPlan::name`
abbrev pub plan_name : ExecutionPlan → Text
plan_name (remote_scan s) = codes "RemoteTableScanExec"
plan_name (empty_exec schema) = codes "EmptyExec"
plan_name (operator o cs) = o.name

-- `ExecutionPlan::schema`
abbrev pub plan_schema : ExecutionPlan → Schema
plan_schema (remote_scan s) = s.schema
plan_schema (empty_exec schema) = schema
plan_schema (operator o cs) = o.schema

-- `dataset_namespace` and `dataset_name`
abbrev pub dataset_namespace : RemoteTableScanExec → Text
dataset_namespace s = s.dataset.namespace

abbrev pub dataset_name : RemoteTableScanExec → Text
dataset_name s = s.dataset.name

-- The scans of a plan, in the order of the tree.
unfoldable mutual
  pub scans : ExecutionPlan → List RemoteTableScanExec
  scans (remote_scan s) = s ∷ []
  scans (empty_exec schema) = []
  scans (operator o cs) = scans_of cs

  pub scans_of : Plans → List RemoteTableScanExec
  scans_of nil = []
  scans_of (cons p ps) = scans p ++ scans_of ps
