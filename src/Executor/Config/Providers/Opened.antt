-- ===== src/Executor/Config/Providers/Opened.antt =====
-- Opening the tables of an executor (crates/elan-executor/src/context.rs): what DataFusion's
-- `SessionContext` is relied on for, and the mounts' registration and collection.
use elan.Common.{
  ◌≡◌, ◌≢◌, refl, sym, ap, ◌∙◌, [], ◌∷◌, List, Option, none, some, Text, Bool, true, All, ok,
  >>=-eq-ok,
}
use elan.Executor.Config.{
  DatasetMount, table_name, SessionApi, register_mount, register_mounts, pushed, collect_mounts,
}

module _ {C P S : Type 0} (api : SessionApi C P S) where
  -- What the program relies on of a `SessionContext`: a name is parsed to the reference of a table,
  -- so that several names may stand for one; `table` is what a reference resolves to. A reference
  -- whose schema exists can be registered once, and registering or removing it leaves the others
  -- alone. No call makes or drops a schema.
  pub record IsSession : Type 0 where
    pub ref : Text → Text
    pub table : Text → C → Option P
    pub has_schema : Text → C → Bool
    pub table-new : (r : Text) → table r api.new ≡ none
    pub table-store :
        (r url : Text) (s : S) (c : C) → table r (api.register_object_store url s c) ≡ table r c
    pub table_in_schema : (r : Text) (p : P) (c : C) → table r c ≡ some p → has_schema r c ≡ true
    pub parquet_adds :
        (n path : Text) (c c' : C)
        → api.register_parquet n path c ≡ ok c'
        → (table (ref n) c ≡ none)
          × ((p : P) × (table (ref n) c' ≡ some p))
          × ((r : Text) → r ≢ ref n → table r c' ≡ table r c)
          × ((r : Text) → has_schema r c' ≡ has_schema r c)
    pub csv_adds :
        (n path : Text) (has_header : _) (c c' : C)
        → api.register_csv n path has_header c ≡ ok c'
        → (table (ref n) c ≡ none)
          × ((p : P) × (table (ref n) c' ≡ some p))
          × ((r : Text) → r ≢ ref n → table r c' ≡ table r c)
          × ((r : Text) → has_schema r c' ≡ has_schema r c)
    pub register_new :
        (n : Text) (p : P) (c : C)
        → has_schema (ref n) c ≡ true
        → table (ref n) c ≡ none
        → (c' : C) × (api.register_table n p c ≡ ok c')
          × (table (ref n) c' ≡ some p)
          × ((r : Text) → r ≢ ref n → table r c' ≡ table r c)
          × ((r : Text) → has_schema r c' ≡ has_schema r c)
    pub deregister :
        (n : Text) (c : C)
        → has_schema (ref n) c ≡ true
        → (c' : C) × (api.deregister_table n c ≡ ok (table (ref n) c, c'))
          × ((r : Text) → r ≢ ref n → table r c' ≡ table r c)

  module _ (law : IsSession) where
    -- The reference of a mount.
    abbrev pub ref_of : DatasetMount → Text
    ref_of m = law.ref (table_name m)

    abbrev pub IsFree : C → DatasetMount → Type 0
    IsFree c m = law.table (ref_of m) c ≡ none

    abbrev pub IsOpen : C → DatasetMount → Type 0
    IsOpen c m = (p : P) × (law.table (ref_of m) c ≡ some p)

    abbrev pub IsOther : Text → DatasetMount → Type 0
    IsOther n m = ref_of m ≢ n

    abbrev pub AreDistinct : List DatasetMount → Type 0
    AreDistinct [] = Unit
    AreDistinct (m ∷ ms) = All (IsOther (ref_of m)) ms × AreDistinct ms

    -- What a context keeps: every name but those of the list.
    abbrev pub Keeps : List DatasetMount → C → C → Type 0
    Keeps ms c c' = (n : Text) → All (λ m. n ≢ ref_of m) ms → law.table n c' ≡ law.table n c

    register_mount_lem :
        (m : DatasetMount) (c c' : C)
        → register_mount api m c ≡ ok c'
        → IsFree c m
          × IsOpen c' m
          × ((n : Text) → n ≢ ref_of m → law.table n c' ≡ law.table n c)
          × ((n : Text) → law.has_schema n c' ≡ law.has_schema n c)
    unfolding register_mount table_name
    register_mount_lem (DatasetMount.parquet_mount n path) c c' e = law.parquet_adds n path c c' e
    register_mount_lem (DatasetMount.csv_mount n path has_header) c c' e =
        law.csv_adds n path has_header c c' e

    IsOther-of_free :
        (n : Text) (p : P) (c : C) (ms : List DatasetMount)
        → law.table n c ≡ some p
        → All (IsFree c) ms
        → All (IsOther n) ms
    IsOther-of_free n p c [] e h = tt
    IsOther-of_free n p c (m ∷ ms) e (free, h) =
        (λ same. let clash = ap (λ k. law.table k c) same in cc, IsOther-of_free n p c ms e h)

    sym_others :
        (n : Text) (ms : List DatasetMount) → All (IsOther n) ms → All (λ m. n ≢ ref_of m) ms
    sym_others n [] h = tt
    sym_others n (m ∷ ms) (o, h) = (λ e. o (sym e), sym_others n ms h)

    moved :
        (c c' : C) (n : Text) (o : C → DatasetMount → Type 0)
        → ((m : DatasetMount) → IsOther n m → o c m → o c' m)
        → (ms : List DatasetMount) → All (IsOther n) ms
        → All (o c) ms
        → All (o c') ms
    moved c c' n o step [] h k = tt
    moved c c' n o step (m ∷ ms) (a, h) (b, k) = (step m a b, moved c c' n o step ms h k)

    pub register_mounts_lem :
        (ms : List DatasetMount) (c c' : C)
        → register_mounts api ms c ≡ ok c'
        → AreDistinct ms
          × All (IsFree c) ms
          × All (IsOpen c') ms
          × Keeps ms c c'
          × ((n : Text) → law.has_schema n c' ≡ law.has_schema n c)
    unfolding register_mounts
    register_mounts_lem [] c c' e =
        let same : c ≡ c' = cc in
        (tt, tt, tt, λ n h. ap (law.table n) (sym same), λ n. ap (law.has_schema n) (sym same))
    register_mounts_lem (m ∷ ms) c c' e =
        let (c1, e1, e2) = >>=-eq-ok (register_mount api m c) _ e in
        let (free, (p, here), keeps, schemas) = register_mount_lem m c c1 e1 in
        let (distinct, frees, opens, kept, later) = register_mounts_lem ms c1 c' e2 in
        let others = IsOther-of_free (ref_of m) p c1 ms here frees in
        (
          (others, distinct),
          (
            free,
            moved c1 c (ref_of m) IsFree (λ k o f. sym (keeps (ref_of k) o) ∙ f) ms others frees,
          ),
          ((p, kept (ref_of m) (sym_others (ref_of m) ms others) ∙ here), opens),
          λ n (a, h). kept n h ∙ keeps n a,
          λ n. later n ∙ schemas n,
        )

    -- The providers of the mounts, under their names and in their order.
    abbrev pub AreOf : List DatasetMount → List (Text × P) → Type 0
    AreOf [] [] = Unit
    AreOf [] (e ∷ ps) = ⊥
    AreOf (m ∷ ms) [] = ⊥
    AreOf (m ∷ ms) (e ∷ ps) = (e.0 ≡ table_name m) × AreOf ms ps

    pub collect_mounts_lem :
        (ms : List DatasetMount) (c : C)
        → AreDistinct ms
        → All (IsOpen c) ms
        → (ps : List (Text × P)) × (collect_mounts api ms c ≡ ok ps) × AreOf ms ps
    unfolding collect_mounts pushed
    collect_mounts_lem [] c d h = ([], refl, tt)
    collect_mounts_lem (m ∷ ms) c (others, d) ((p, here), h) =
        let (c1, e, keeps) =
          law.deregister (table_name m) c (law.table_in_schema (ref_of m) p c here) in
        let (ps, e', of) =
          collect_mounts_lem ms c1 d (
            moved c c1 (ref_of m) IsOpen (λ k o (q, f). (q, keeps (ref_of k) o ∙ f)) ms others h) in
        ((table_name m, p) ∷ ps, rw (e, here, e') refl, (refl, of))
