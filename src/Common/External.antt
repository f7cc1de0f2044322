-- ===== src/Common/External.antt =====
-- What the program calls and does not implement, as parameters: the `uuid` and `serde_json` crates.
-- A `Uuid` is its 128-bit value.
use elan.Common.{ℕ, Bool, Text, Option, some, List, ◌≡◌}

abbrev pub Uuid : Type 0
Uuid = ℕ

-- `Uuid::to_string` and `Uuid::parse_str(..).ok()`: a printed identifier is read back.
pub record UuidCodec : Type 0 where
  pub to_string : Uuid → Text
  pub parse_str : Text → Option Uuid
  pub parse_str-to_string : (u : Uuid) → parse_str (to_string u) ≡ some u

-- `serde_json::Value`, with the entries of an object in the order of the crate's map.
mutual
  pub data Value : Type 0 where
    null : Value
    bool : Bool → Value
    number : ℕ → Value
    string : Text → Value
    object : Entries → Value

  pub data Entries : Type 0 where
    end : Entries
    entry : Text → Value → Entries → Entries

-- `serde_json::from_str` and `to_string`, at the types that the program uses.
pub record Serde : Type 0 where
  pub from_str : Text → Option Value
  pub to_string : Value → Text
  pub map_from_str : Text → Option (List (Text × Text))
  pub map_to_string : List (Text × Text) → Option Text
  pub from_str-to_string : (v : Value) → from_str (to_string v) ≡ some v
