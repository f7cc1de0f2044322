-- ===== src/Examples/Batches.antt =====
-- A concrete stream format of record batches, for the examples: a stack machine reads what was
-- written batch by batch.
use elan.Common.{
  ℕ, zero, suc, ◌≡◌, refl, ap, ◌∙◌, ◌++◌, [], ◌∷◌, List, Bool, true, false, Text, Result, ok, err,
  append_assoc,
}
use elan.Common.Signed.{pos, negsuc}
use elan.Domain.Arrow.{DataType, Schema, ScalarValue}
use elan.Query.RemoteScan.Execute.{RecordBatch}

pub data Item : Type 0 where
  text : Text → Item
  fields : Schema → Item
  scalars : List ScalarValue → Item
  rows : List (List ScalarValue) → Item
  batches : List RecordBatch → Item

abbrev flag : Bool → ℕ
flag false = 0
flag true = 1

abbrev bool_of : ℕ → Bool
bool_of zero = false
bool_of (suc n) = true

abbrev type_code : DataType → ℕ
type_code DataType.utf8 = 0
type_code (DataType.other n) = suc n

abbrev type_of : ℕ → DataType
type_of zero = DataType.utf8
type_of (suc n) = DataType.other n

abbrev write_text : Text → Text
write_text [] = 0 ∷ []
write_text (c ∷ t) = write_text t ++ 1 ∷ c ∷ []

abbrev write_fields : Schema → Text
write_fields [] = 2 ∷ []
write_fields (x ∷ xs) =
    write_fields xs ++ (write_text x.name ++ 3 ∷ type_code x.data_type ∷ flag x.nullable ∷ [])

abbrev write_scalar : ScalarValue → Text
write_scalar ScalarValue.null = 5 ∷ 0 ∷ 0 ∷ []
write_scalar (ScalarValue.boolean b) = 5 ∷ 1 ∷ flag b ∷ []
write_scalar (ScalarValue.int64 (pos n)) = 5 ∷ 2 ∷ n ∷ []
write_scalar (ScalarValue.int64 (negsuc n)) = 5 ∷ 3 ∷ n ∷ []
write_scalar (ScalarValue.other n) = 5 ∷ 4 ∷ n ∷ []
write_scalar (ScalarValue.utf8 t) = write_text t ++ 6 ∷ []

abbrev write_scalars : List ScalarValue → Text
write_scalars [] = 4 ∷ []
write_scalars (v ∷ vs) = write_scalars vs ++ write_scalar v

abbrev write_rows : List (List ScalarValue) → Text
write_rows [] = 7 ∷ []
write_rows (r ∷ rs) = write_rows rs ++ (write_scalars r ++ 8 ∷ [])

abbrev pub write_batch : RecordBatch → Text
write_batch b = write_fields b.schema ++ (write_rows b.rows ++ 9 ∷ [])

abbrev scalar_of : ℕ → ℕ → ScalarValue
scalar_of zero n = ScalarValue.null
scalar_of (suc zero) n = ScalarValue.boolean (bool_of n)
scalar_of (suc (suc zero)) n = ScalarValue.int64 (pos n)
scalar_of (suc (suc (suc zero))) n = ScalarValue.int64 (negsuc n)
scalar_of (suc (suc (suc (suc k)))) n = ScalarValue.other n

unfoldable pub run : Text → List Item → Result Text (List RecordBatch)
run [] (batches bs ∷ []) = ok bs
run [] st = err []
run (zero ∷ t) st = run t (text [] ∷ st)
run ((suc zero) ∷ c ∷ t) (text s ∷ st) = run t (text (c ∷ s) ∷ st)
run ((suc (suc zero)) ∷ t) st = run t (fields [] ∷ st)
run ((suc (suc (suc zero))) ∷ d ∷ n ∷ t) (text s ∷ fields xs ∷ st) =
    run t (fields (record { name = s; data_type = type_of d; nullable = bool_of n } ∷ xs) ∷ st)
run ((suc (suc (suc (suc zero)))) ∷ t) st = run t (scalars [] ∷ st)
run ((suc (suc (suc (suc (suc zero))))) ∷ k ∷ n ∷ t) (scalars vs ∷ st) =
    run t (scalars (scalar_of k n ∷ vs) ∷ st)
run ((suc (suc (suc (suc (suc (suc zero)))))) ∷ t) (text s ∷ scalars vs ∷ st) =
    run t (scalars (ScalarValue.utf8 s ∷ vs) ∷ st)
run ((suc (suc (suc (suc (suc (suc (suc zero))))))) ∷ t) st = run t (rows [] ∷ st)
run ((suc (suc (suc (suc (suc (suc (suc (suc zero)))))))) ∷ t) (scalars vs ∷ rows rs ∷ st) =
    run t (rows (vs ∷ rs) ∷ st)
run ((suc (suc (suc (suc (suc (suc (suc (suc (suc zero))))))))) ∷ t)
      (rows rs ∷ fields xs ∷ batches bs ∷ st) =
    run t (batches (bs ++ record { schema = xs; rows = rs } ∷ []) ∷ st)
run t st = err []

reassoc : (a b t : Text) (st : List Item) → run ((a ++ b) ++ t) st ≡ run (a ++ (b ++ t)) st
reassoc a b t st = ap (λ (z : Text). run z st) (append_assoc a b t)

run-text : (s t : Text) (st : List Item) → run (write_text s ++ t) st ≡ run t (text s ∷ st)
unfolding run
run-text [] t st = refl
run-text (c ∷ s) t st = reassoc (write_text s) (1 ∷ c ∷ []) t st ∙ run-text s (1 ∷ c ∷ t) st

bool_of-flag : (b : Bool) → bool_of (flag b) ≡ b
bool_of-flag true = refl
bool_of-flag false = refl

type_of-code : (d : DataType) → type_of (type_code d) ≡ d
type_of-code DataType.utf8 = refl
type_of-code (DataType.other n) = refl

run-fields :
    (xs : Schema) (t : Text) (st : List Item)
    → run (write_fields xs ++ t) st ≡ run t (fields xs ∷ st)
unfolding run
run-fields [] t st = refl
run-fields (x ∷ xs) t st =
    let tail = 3 ∷ type_code x.data_type ∷ flag x.nullable ∷ [] in
    reassoc (write_fields xs) (write_text x.name ++ tail) t st
    ∙ run-fields xs ((write_text x.name ++ tail) ++ t) st
    ∙ reassoc (write_text x.name) tail t (fields xs ∷ st)
    ∙ run-text x.name (tail ++ t) (fields xs ∷ st)
    ∙ (λ i. run t (
        fields (
          record {
            name = x.name;
            data_type = type_of-code x.data_type i;
            nullable = bool_of-flag x.nullable i;
          }
          ∷ xs)
        ∷ st))

run-scalar :
    (v : ScalarValue) (vs : List ScalarValue) (t : Text) (st : List Item)
    → run (write_scalar v ++ t) (scalars vs ∷ st) ≡ run t (scalars (v ∷ vs) ∷ st)
unfolding run
run-scalar ScalarValue.null vs t st = refl
run-scalar (ScalarValue.boolean b) vs t st =
    ap (λ (z : Bool). run t (scalars (ScalarValue.boolean z ∷ vs) ∷ st)) (bool_of-flag b)
run-scalar (ScalarValue.int64 (pos n)) vs t st = refl
run-scalar (ScalarValue.int64 (negsuc n)) vs t st = refl
run-scalar (ScalarValue.other n) vs t st = refl
run-scalar (ScalarValue.utf8 s) vs t st =
    reassoc (write_text s) (6 ∷ []) t (scalars vs ∷ st) ∙ run-text s (6 ∷ t) (scalars vs ∷ st)

run-scalars :
    (vs : List ScalarValue) (t : Text) (st : List Item)
    → run (write_scalars vs ++ t) st ≡ run t (scalars vs ∷ st)
unfolding run
run-scalars [] t st = refl
run-scalars (v ∷ vs) t st =
    reassoc (write_scalars vs) (write_scalar v) t st
    ∙ run-scalars vs (write_scalar v ++ t) st
    ∙ run-scalar v vs t st

run-rows :
    (rs : List (List ScalarValue)) (t : Text) (st : List Item)
    → run (write_rows rs ++ t) st ≡ run t (rows rs ∷ st)
unfolding run
run-rows [] t st = refl
run-rows (r ∷ rs) t st =
    reassoc (write_rows rs) (write_scalars r ++ 8 ∷ []) t st
    ∙ run-rows rs ((write_scalars r ++ 8 ∷ []) ++ t) st
    ∙ reassoc (write_scalars r) (8 ∷ []) t (rows rs ∷ st)
    ∙ run-scalars r (8 ∷ t) (rows rs ∷ st)

-- A written batch is read behind those that were read before.
pub run-write_batch :
    (b : RecordBatch) (bs : List RecordBatch) (t : Text)
    → run (write_batch b ++ t) (batches bs ∷ []) ≡ run t (batches (bs ++ b ∷ []) ∷ [])
unfolding run
run-write_batch b bs t =
    reassoc (write_fields b.schema) (write_rows b.rows ++ 9 ∷ []) t (batches bs ∷ [])
    ∙ run-fields b.schema ((write_rows b.rows ++ 9 ∷ []) ++ t) (batches bs ∷ [])
    ∙ reassoc (write_rows b.rows) (9 ∷ []) t (fields b.schema ∷ batches bs ∷ [])
    ∙ run-rows b.rows (9 ∷ t) (fields b.schema ∷ batches bs ∷ [])
