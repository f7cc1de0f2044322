-- ===== src/Examples/Sessions.antt =====
-- Examples for the session contexts of an executor.
use elan.Common.{
  any, not, ◌==◌, Bool, false, to_ascii_lowercase, ◌≡◌, ◌≢◌, subst, refl, true, Option, none, some,
  Text, codes, Result, ok, err, map, text_eq, text_eq_iff, text_eq_refl, if◌then◌else◌, inl, inr,
  Bool-cases,
}
use elan.Executor.Config.{SessionApi}
use elan.Executor.Config.Providers.Opened.{IsSession}

-- A session is its table of references, and a provider the path of its file. A name is parsed by
-- lowering its letters, and one with a dot lies in a schema that does not exist.
abbrev pub Tables : Type 0
Tables = Text → Option Text

abbrev pub ref : Text → Text
ref n = map to_ascii_lowercase n

abbrev pub is_plain : Text → Bool
is_plain r = not (any (λ c. c == b'.') r)

abbrev pub lookup : Text → Tables → Option Text
lookup r c = if is_plain r then c r else none

abbrev pub set : Text → Option Text → Tables → Tables
set n p c = λ m. if text_eq m n then p else c m

unfoldable pub add_at : Bool → Text → Text → Tables → Option Text → Result Text Tables
add_at true r path c none = ok (set r (some path) c)
add_at true r path c (some q) = err (codes "table already exists")
add_at false r path c o = err (codes "schema not found")

abbrev pub add : Text → Text → Tables → Result Text Tables
add n path c = add_at (is_plain (ref n)) (ref n) path c (c (ref n))

abbrev pub take_at : Bool → Text → Tables → Result Text (Option Text × Tables)
take_at true r c = ok (c r, set r none c)
take_at false r c = err (codes "schema not found")

abbrev pub api : SessionApi Tables Text (Unit {0})
api = record {
  new = λ n. none;
  build_store = λ settings. ok tt;
  parse_url = λ url. ok url;
  register_object_store = λ url store c. c;
  register_parquet = add;
  register_csv = λ n path has_header c. add n path c;
  register_table = add;
  deregister_table = λ n c. take_at (is_plain (ref n)) (ref n) c;
}

lookup_here :
    (r : Text) (p : Option Text) (c : Tables) → is_plain r ≡ true → lookup r (set r p c) ≡ p
lookup_here r p c plain = rw (plain, text_eq_refl r) refl

lookup_there :
    (r m : Text) (p : Option Text) (c : Tables) → m ≢ r → lookup m (set r p c) ≡ lookup m c
lookup_there r m p c other = elim (Bool-cases (text_eq m r)) [
  | inl same ↦ absurd (other ((text_eq_iff m r).0 same))
  | inr differ ↦ rw differ refl
]

-- What a successful addition at a reference does.
abbrev Adds : Text → Tables → Tables → Type 0
Adds r c c' =
    (lookup r c ≡ none)
    × ((p : Text) × (lookup r c' ≡ some p))
    × ((m : Text) → m ≢ r → lookup m c' ≡ lookup m c)
    × ((m : Text) → is_plain m ≡ is_plain m)

add_at-Adds :
    (r path : Text) (c c' : Tables) (o : Option Text) (plain : Bool)
    → is_plain r ≡ plain
    → c r ≡ o
    → add_at plain r path c o ≡ ok c'
    → Adds r c c'
unfolding add_at
add_at-Adds r path c c' (some q) true plain e h = absurd (cc)
add_at-Adds r path c c' o false plain e h = absurd (cc)
add_at-Adds r path c c' none true plain e h =
    let same : set r (some path) c ≡ c' = cc in
    subst (Adds r c) same (
      rw (plain, e) refl,
      (path, lookup_here r (some path) c plain),
      (λ m other. lookup_there r m (some path) c other),
      λ m. refl,
    )

pub add-Adds : (n path : Text) (c c' : Tables) → add n path c ≡ ok c' → Adds (ref n) c c'
add-Adds n path c c' e = add_at-Adds (ref n) path c c' (c (ref n)) (is_plain (ref n)) refl refl e

pub add_new :
    (n p : Text) (c : Tables)
    → is_plain (ref n) ≡ true
    → lookup (ref n) c ≡ none
    → (c' : Tables) × (add n p c ≡ ok c')
      × (lookup (ref n) c' ≡ some p)
      × ((m : Text) → m ≢ ref n → lookup m c' ≡ lookup m c)
      × ((m : Text) → is_plain m ≡ is_plain m)
unfolding add_at
add_new n p c plain free =
    let empty : c (ref n) ≡ none = rw plain at free in
    (
      set (ref n) (some p) c,
      rw (plain, empty) refl,
      lookup_here (ref n) (some p) c plain,
      (λ m other. lookup_there (ref n) m (some p) c other),
      λ m. refl,
    )

pub taken :
    (n : Text) (c : Tables)
    → is_plain (ref n) ≡ true
    → (c' : Tables) × (take_at (is_plain (ref n)) (ref n) c ≡ ok (lookup (ref n) c, c'))
      × ((m : Text) → m ≢ ref n → lookup m c' ≡ lookup m c)
taken n c plain =
    (set (ref n) none c, rw plain refl, λ m other. lookup_there (ref n) m none c other)

pub plain_of_found : (r p : Text) (c : Tables) → lookup r c ≡ some p → is_plain r ≡ true
plain_of_found r p c h = elim (Bool-cases (is_plain r)) [
  | inl plain ↦ plain
  | inr dotted ↦ let never : ◌≡◌ {A = Option Text} none (some p) = rw dotted at h in absurd (cc)
]

unfoldable pub law : IsSession api
law = record {
  ref = ref;
  table = lookup;
  has_schema = λ r c. is_plain r;
  table-new = λ r. elim (Bool-cases (is_plain r)) [
    | inl plain ↦ rw plain refl
    | inr dotted ↦ rw dotted refl
  ];
  table-store = λ r url store c. refl;
  table_in_schema = plain_of_found;
  parquet_adds = add-Adds;
  csv_adds = λ n path has_header c c' e. add-Adds n path c c' e;
  register_new = add_new;
  deregister = taken;
}
