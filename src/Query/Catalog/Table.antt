-- ===== src/Query/Catalog/Table.antt =====
-- crates/elan-query/src/catalog/table.rs
use elan.Common.{
  ℕ, [], ◌∷◌, List, Option, none, some, Result, ok, ◌>>=◌, map, ◌||◌, text_eq, ltb, length,
  if◌then◌else◌,
}
use elan.Domain.Arrow.{Schema, Expr}
use elan.Domain.Catalog.{DatasetInfo}
use elan.Domain.Plan.{ExecutionPlan, remote_scan}
use elan.Iam.Optimizer.{DfError}

-- The `arrow` crates: the schema at the head of an IPC stream, and `Schema::project`.
pub record ArrowIpc : Type 0 where
  pub read_schema : List ℕ → Option Schema
  pub project : Schema → List ℕ → Result DfError Schema

pub record ElanTableProvider : Type 0 where
  pub dataset : DatasetInfo
  pub schema : Schema

pub data FilterPushDown : Type 0 where
  inexact exact unsupported : FilterPushDown

-- `supports_filters_pushdown`
unfoldable pub supports_filters_pushdown : List Expr → List FilterPushDown
supports_filters_pushdown filters = map (λ _. FilterPushDown.inexact) filters

projected : ArrowIpc → Schema → Option (List ℕ) → Result DfError Schema
projected ipc schema none = ok schema
projected ipc schema (some proj) = ipc.project schema proj

unfoldable pub scan :
    ArrowIpc
    → ElanTableProvider
    → Option (List ℕ)
    → List Expr
    → Option ℕ
    → Result DfError ExecutionPlan
unfolding projected
scan ipc table projection filters limit =
    projected ipc table.schema projection >>= λ projected_schema. ok (
      remote_scan (record {
        dataset = table.dataset;
        schema = projected_schema;
        pushed_filters = filters;
        limit = limit;
      }))

-- `decode_schema(..).unwrap_or_else(..)`: too short or unreadable bytes are an empty schema.
unfoldable pub decode_schema : ArrowIpc → List ℕ → Schema
decode_schema ipc ipc_bytes =
    if text_eq ipc_bytes [] || (text_eq ipc_bytes (0 ∷ 0 ∷ 0 ∷ 0 ∷ []) || ltb (length ipc_bytes) 8)
    then []
    else elim (ipc.read_schema ipc_bytes) [ none ↦ [] | some schema ↦ schema ]

unfoldable pub new_table : ArrowIpc → DatasetInfo → ElanTableProvider
new_table ipc ds = record { dataset = ds; schema = decode_schema ipc ds.schema_ipc }
