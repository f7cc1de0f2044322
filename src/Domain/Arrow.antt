-- ===== src/Domain/Arrow.antt =====
-- The public data of the `arrow` and `datafusion` crates that elan builds or reads.
use elan.Common.{ℕ, List, Bool, Text}
use elan.Common.Signed.{ℤ}

pub data DataType : Type 0 where
  utf8 : DataType
  other : ℕ → DataType

pub record Field : Type 0 where
  pub name : Text
  pub data_type : DataType
  pub nullable : Bool

-- `arrow_schema::Schema`; `Schema::empty()` is `[]`.
abbrev pub Schema : Type 0
Schema = List Field

pub data ScalarValue : Type 0 where
  null : ScalarValue
  boolean : Bool → ScalarValue
  int64 : ℤ → ScalarValue
  utf8 : Text → ScalarValue
  other : ℕ → ScalarValue

pub data Operator : Type 0 where
  eq not_eq lt lt_eq gt gt_eq and or : Operator
  other : ℕ → Operator

-- `datafusion::prelude::Expr`; `other` stands for the variants that elan does not look into.
pub data Expr : Type 0 where
  binary_expr : Expr → Operator → Expr → Expr
  column : Text → Expr
  literal : ScalarValue → Expr
  negation : Expr → Expr
  other : ℕ → Expr
