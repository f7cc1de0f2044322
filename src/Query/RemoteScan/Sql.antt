-- ===== src/Query/RemoteScan/Sql.antt =====
-- crates/elan-query/src/planner/remote_scan.rs, `build_sql` and `expr_to_sql`.
pub mod Translated
use elan.Common.{ℕ, ◌++◌, [], ◌∷◌, List, Option, none, some, Text, codes, filter_map}
use elan.Common.Decimal.{display_nat}
use elan.Domain.Arrow.{
  ScalarValue, Operator, eq, not_eq, lt, lt_eq, gt, gt_eq, and, or, Expr, binary_expr, column,
  literal, negation,
}
use elan.Domain.Plan.{RemoteTableScanExec, dataset_name}

infixl 5 ◌>>=◌
abbrev ◌>>=◌ : {A B : Type 0} → Option A → (A → Option B) → Option B
none >>= f = none
some a >>= f = f a

abbrev operator_sql : Operator → Option Text
operator_sql eq = some (codes "=")
operator_sql not_eq = some (codes "!=")
operator_sql lt = some (codes "<")
operator_sql lt_eq = some (codes "<=")
operator_sql gt = some (codes ">")
operator_sql gt_eq = some (codes ">=")
operator_sql and = some (codes "AND")
operator_sql or = some (codes "OR")
operator_sql (Operator.other n) = none

-- `filter_strs.join(" AND ")`
abbrev join_and : List Text → Text
join_and [] = []
join_and (t ∷ []) = t
join_and (t ∷ u ∷ us) = t ++ (codes " AND " ++ join_and (u ∷ us))

-- `Display for ScalarValue` is DataFusion's.
module _ (scalar_to_string : ScalarValue → Text) where
  unfoldable pub expr_to_sql : Expr → Option Text
  expr_to_sql (binary_expr l op r) = do
    left ← expr_to_sql l
    right ← expr_to_sql r
    sign ← operator_sql op
    some (b'(' ∷ (left ++ (b' ' ∷ (sign ++ (b' ' ∷ (right ++ (b')' ∷ [])))))))
  expr_to_sql (column name) = some (b'"' ∷ (name ++ (b'"' ∷ [])))
  expr_to_sql (literal scalar) = some (scalar_to_string scalar)
  expr_to_sql (negation inner) = do
    inner_sql ← expr_to_sql inner
    some (codes "NOT (" ++ (inner_sql ++ (b')' ∷ [])))
  expr_to_sql (Expr.other n) = none

  where_clause : List Text → Text
  where_clause [] = []
  where_clause (t ∷ ts) = codes " WHERE " ++ join_and (t ∷ ts)

  limit_clause : Option ℕ → Text
  limit_clause none = []
  limit_clause (some lim) = codes " LIMIT " ++ display_nat lim

  unfoldable pub build_sql : RemoteTableScanExec → Text
  unfolding where_clause limit_clause
  build_sql s =
      codes "SELECT * FROM \""
      ++ (dataset_name s
          ++ (b'"'
              ∷ (where_clause (filter_map expr_to_sql s.pushed_filters) ++ limit_clause s.limit)))
