-- ===== src/Domain/Catalog.antt =====
-- crates/elan-common/src/types/catalog.rs
use elan.Common.{
  ℕ, ◌++◌, ◌≡◌, ◌↔◌, List, Bool, Text, codes, text_eq, text_eq_iff, Result, ok, err, arith,
  if◌then◌else◌,
}
use elan.Common.External.{Uuid, Value}
use elan.Domain.Errors.{ElanError}

pub data SourceType : Type 0 where
  parquet csv postgres delta : SourceType

pub record DatasetInfo : Type 0 where
  pub id : Uuid
  pub name : Text
  pub namespace : Text
  pub source_type : SourceType
  pub coordinator_id : Text
  pub executor_endpoint : Text
  pub schema_ipc : List ℕ
  pub metadata : Value

pub record CoordinatorInfo : Type 0 where
  pub id : Text
  pub environment : Text
  pub hostname : Text
  pub executor_endpoint : Text
  pub is_alive : Bool

-- `Display for SourceType`
abbrev pub display : SourceType → Text
display parquet = codes "parquet"
display csv = codes "csv"
display postgres = codes "postgres"
display delta = codes "delta"

-- `TryFrom<&str> for SourceType`
unfoldable pub try_from : Text → Result ElanError SourceType
try_from s =
    if text_eq s (codes "parquet")
    then ok parquet
    else if text_eq s (codes "csv")
    then ok csv
    else if text_eq s (codes "postgres")
    then ok postgres
    else if text_eq s (codes "delta")
    then ok delta
    else err (ElanError.config (codes "unknown source type: " ++ s))

-- A text is read as a source type exactly if it is the text that the type prints.
pub try_from_iff : (s : Text) (t : SourceType) → (try_from s ≡ ok t) ↔ (s ≡ display t)
unfolding try_from
try_from_iff s parquet = ground (
  arith,
  text_eq_iff s (codes "parquet"),
  text_eq_iff s (codes "csv"),
  text_eq_iff s (codes "postgres"),
  text_eq_iff s (codes "delta"),
)
try_from_iff s t = ground (
  arith,
  text_eq_iff s (codes "parquet"),
  text_eq_iff s (codes "csv"),
  text_eq_iff s (codes "postgres"),
  text_eq_iff s (codes "delta"),
)
