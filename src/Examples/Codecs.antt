-- ===== src/Examples/Codecs.antt =====
-- Concrete codecs for the examples: identifiers of one code, and a postfix code of JSON values.
use elan.Common.{
  zero, suc, sym, ◌≡◌, refl, ap, ◌∙◌, ◌++◌, [], ◌∷◌, List, Bool, true, false, Option, none, some,
  Text, text_eq, append_assoc, append-nil, if◌then◌else◌,
}
use elan.Common.External.{
  Uuid, UuidCodec, Value, Entries, null, bool, number, string, object, end, entry, Serde,
}
use elan.Central.IamService.Serving.{default_policy_id}

abbrev read_uuid : Text → Option Uuid
read_uuid [] = none
read_uuid (u ∷ []) = some u
read_uuid (x ∷ y ∷ t) = if text_eq (x ∷ y ∷ t) default_policy_id then some 0 else none

-- The identifier of the default policy is read, and any identifier of one code.
abbrev pub uuids : UuidCodec
uuids = record { to_string = λ u. u ∷ []; parse_str = read_uuid; parse_str-to_string = λ u. refl }

pub data Item : Type 0 where
  value : Value → Item
  entries : Entries → Item
  text : Text → Item

abbrev write_text : Text → Text
write_text [] = 3 ∷ []
write_text (c ∷ t) = write_text t ++ 8 ∷ c ∷ []

abbrev write_bool : Bool → Text
write_bool true = 1 ∷ []
write_bool false = 2 ∷ []

unfoldable mutual
  pub write : Value → Text
  write null = 0 ∷ []
  write (bool b) = write_bool b
  write (number n) = 9 ∷ n ∷ []
  write (string t) = write_text t ++ 4 ∷ []
  write (object es) = write_entries es ++ 7 ∷ []

  pub write_entries : Entries → Text
  write_entries end = 5 ∷ []
  write_entries (entry k v es) = write_entries es ++ (write v ++ (write_text k ++ 6 ∷ []))

-- The machine that reads the code, on a stack of what it has read.
unfoldable pub run : Text → List Item → Option Value
run [] (value v ∷ []) = some v
run [] st = none
run (zero ∷ t) st = run t (value null ∷ st)
run ((suc zero) ∷ t) st = run t (value (bool true) ∷ st)
run ((suc (suc zero)) ∷ t) st = run t (value (bool false) ∷ st)
run ((suc (suc (suc zero))) ∷ t) st = run t (text [] ∷ st)
run ((suc (suc (suc (suc zero)))) ∷ t) (text s ∷ st) = run t (value (string s) ∷ st)
run ((suc (suc (suc (suc (suc zero))))) ∷ t) st = run t (entries end ∷ st)
run ((suc (suc (suc (suc (suc (suc zero)))))) ∷ t) (text k ∷ value v ∷ entries es ∷ st) =
    run t (entries (entry k v es) ∷ st)
run ((suc (suc (suc (suc (suc (suc (suc zero))))))) ∷ t) (entries es ∷ st) =
    run t (value (object es) ∷ st)
run ((suc (suc (suc (suc (suc (suc (suc (suc zero)))))))) ∷ c ∷ t) (text s ∷ st) =
    run t (text (c ∷ s) ∷ st)
run ((suc (suc (suc (suc (suc (suc (suc (suc (suc zero))))))))) ∷ n ∷ t) st =
    run t (value (number n) ∷ st)
run t st = none

run-write_text : (s t : Text) (st : List Item) → run (write_text s ++ t) st ≡ run t (text s ∷ st)
unfolding run
run-write_text [] t st = refl
run-write_text (c ∷ s) t st =
    ap (λ (z : Text). run z st) (append_assoc (write_text s) (8 ∷ c ∷ []) t)
    ∙ run-write_text s (8 ∷ c ∷ t) st

mutual
  unfolding run write write_entries

  run-write : (v : Value) (t : Text) (st : List Item) → run (write v ++ t) st ≡ run t (value v ∷ st)
  run-write null t st = refl
  run-write (bool true) t st = refl
  run-write (bool false) t st = refl
  run-write (number n) t st = refl
  run-write (string s) t st =
      ap (λ (z : Text). run z st) (append_assoc (write_text s) (4 ∷ []) t)
      ∙ run-write_text s (4 ∷ t) st
  run-write (object es) t st =
      ap (λ (z : Text). run z st) (append_assoc (write_entries es) (7 ∷ []) t)
      ∙ run-write_entries es (7 ∷ t) st

  run-write_entries :
      (es : Entries) (t : Text) (st : List Item)
      → run (write_entries es ++ t) st ≡ run t (entries es ∷ st)
  run-write_entries end t st = refl
  run-write_entries (entry k v es) t st =
      ap (λ (z : Text). run z st)
        (append_assoc (write_entries es) (write v ++ (write_text k ++ 6 ∷ [])) t)
      ∙ run-write_entries es ((write v ++ (write_text k ++ 6 ∷ [])) ++ t) st
      ∙ ap (λ (z : Text). run z (entries es ∷ st))
          (append_assoc (write v) (write_text k ++ 6 ∷ []) t)
      ∙ run-write v ((write_text k ++ 6 ∷ []) ++ t) (entries es ∷ st)
      ∙ ap (λ (z : Text). run z (value v ∷ entries es ∷ st))
          (append_assoc (write_text k) (6 ∷ []) t)
      ∙ run-write_text k (6 ∷ t) (value v ∷ entries es ∷ st)

pub run_once : (v : Value) → run (write v) [] ≡ some v
unfolding run
run_once v = ap (λ (z : Text). run z []) (sym (append-nil (write v))) ∙ run-write v [] []

-- The codec of JSON values. Column masks are not read.
abbrev pub serde : Serde
serde = record {
  from_str = λ t. run t [];
  to_string = write;
  map_from_str = λ t. none;
  map_to_string = λ m. none;
  from_str-to_string = run_once;
}
