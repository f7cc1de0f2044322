-- ===== src/Query/RemoteScan/Sql/Translated.antt =====
-- Which expressions become SQL, and what a consumer of the SQL may rely on.
use elan.Common.{ℕ, ◌++◌, ◌≡◌, ◌≢◌, refl, [], ◌∷◌, Option, none, some, Text, codes, ◌↔◌}
use elan.Domain.Arrow.{
  ScalarValue, Operator, eq, not_eq, lt, lt_eq, gt, gt_eq, and, or, Expr, binary_expr, column,
  literal, negation,
}
use elan.Query.RemoteScan.Sql.{operator_sql, expr_to_sql, ◌>>=◌}

-- The expressions of comparisons, AND, OR and NOT over columns and literals.
abbrev pub IsSimple : Expr → Type 0
IsSimple (binary_expr l op r) = IsSimple l × IsSimple r × ((n : ℕ) → op ≢ Operator.other n)
IsSimple (column name) = Unit
IsSimple (literal scalar) = Unit
IsSimple (negation inner) = IsSimple inner
IsSimple (Expr.other n) = ⊥

operator_translated :
    (op : Operator) → ((n : ℕ) → op ≢ Operator.other n) → (t : Text) × (operator_sql op ≡ some t)
operator_translated (Operator.other n) h = absurd (h n refl)
operator_translated eq h = (codes "=", refl)
operator_translated not_eq h = (codes "!=", refl)
operator_translated lt h = (codes "<", refl)
operator_translated lt_eq h = (codes "<=", refl)
operator_translated gt h = (codes ">", refl)
operator_translated gt_eq h = (codes ">=", refl)
operator_translated and h = (codes "AND", refl)
operator_translated or h = (codes "OR", refl)

operator_known :
    (op : Operator) {t : Text} → operator_sql op ≡ some t → (n : ℕ) → op ≢ Operator.other n
operator_known (Operator.other m) h n = cc
operator_known eq h n = cc
operator_known op h n = cc

>>=-eq-some :
    {A B : Type 0} (o : Option A) (f : A → Option B) {b : B}
    → (o >>= f) ≡ some b
    → (a : A) × (o ≡ some a) × (f a ≡ some b)
>>=-eq-some none f h = cc
>>=-eq-some (some a) f h = (a, refl, h)

module _ (scalar_to_string : ScalarValue → Text) where
  abbrev sql : Expr → Option Text
  sql = expr_to_sql scalar_to_string

  translated : (e : Expr) → IsSimple e → (t : Text) × (sql e ≡ some t)
  unfolding expr_to_sql
  translated (binary_expr l op r) (hl, hr, ho) =
      let (tl, el) = translated l hl in
      let (tr, er) = translated r hr in
      let (to, eo) = operator_translated op ho in
      (b'(' ∷ (tl ++ (b' ' ∷ (to ++ (b' ' ∷ (tr ++ (b')' ∷ [])))))), rw (el, er, eo) refl)
  translated (column name) h = (b'"' ∷ (name ++ (b'"' ∷ [])), refl)
  translated (literal scalar) h = (scalar_to_string scalar, refl)
  translated (negation inner) h =
      let (t, e) = translated inner h in (codes "NOT (" ++ (t ++ (b')' ∷ [])), rw e refl)
  translated (Expr.other n) h = absurd h

  simple : (e : Expr) (t : Text) → sql e ≡ some t → IsSimple e
  unfolding expr_to_sql
  simple (binary_expr l op r) t h =
      let (tl, el, h') = >>=-eq-some (sql l) _ h in
      let (tr, er, h'') = >>=-eq-some (sql r) _ h' in
      let (to, eo, _) = >>=-eq-some (operator_sql op) _ h'' in
      (simple l tl el, simple r tr er, operator_known op eo)
  simple (column name) t h = tt
  simple (literal scalar) t h = tt
  simple (negation inner) t h = let (ti, ei, _) = >>=-eq-some (sql inner) _ h in simple inner ti ei
  simple (Expr.other n) t h = cc

  -- An expression is translated to SQL exactly if it consists of comparisons, AND, OR and NOT over
  -- columns and literals; one foreign operator or sub-expression makes the whole untranslatable.
  pub expr_to_sql_iff :
      (e : Expr) → ((t : Text) × (expr_to_sql scalar_to_string e ≡ some t)) ↔ IsSimple e
  expr_to_sql_iff e = (λ h. simple e h.0 h.1, translated e)
