-- ===== src/Coordinator/Config.antt =====
-- crates/elan-coordinator/src/config.rs. A `char` is its number.
use elan.Common.{ℕ, ◌+◌, ◌/◌, ◌%◌, ltb, if◌then◌else◌, [], ◌∷◌, List, Bool, Option, Text, codes}
use elan.Common.External.{Value, bool, number, string, object, end, entry}

pub record ObjectStoreConfig : Type 0 where
  pub endpoint : Text
  pub access_key : Text
  pub secret_key : Text
  pub bucket : Text
  pub allow_http : Bool

pub record CoordinatorMeta : Type 0 where
  pub id : Text
  pub environment : Text
  pub hostname : Text

pub record Parquet : Type 0 where
  pub name : Text
  pub namespace : Text
  pub path : Text
  pub description : Option Text

pub record Csv : Type 0 where
  pub name : Text
  pub namespace : Text
  pub path : Text
  pub delimiter : ℕ
  pub has_header : Bool

pub record Postgres : Type 0 where
  pub name : Text
  pub namespace : Text
  pub host : Text
  pub port : ℕ
  pub database : Text
  pub schema : Text
  pub table : Text
  pub username : Text
  pub password : Text

pub record Delta : Type 0 where
  pub name : Text
  pub namespace : Text
  pub path : Text

pub data DatasetConfig : Type 0 where
  parquet_source : Parquet → DatasetConfig
  csv_source : Csv → DatasetConfig
  postgres_source : Postgres → DatasetConfig
  delta_source : Delta → DatasetConfig

pub record CoordinatorConfig : Type 0 where
  pub coordinator : CoordinatorMeta
  pub central_endpoint : Text
  pub executor_endpoint : Text
  pub http_addr : Text
  pub object_store : Option ObjectStoreConfig
  pub datasets : List DatasetConfig

-- The defaults of the fields that a file may leave out.
abbrev pub default_delimiter : ℕ
default_delimiter = b','

abbrev pub default_pg_port : ℕ
default_pg_port = 5432

abbrev pub default_http_addr : Text
default_http_addr = codes "0.0.0.0:8081"

unfoldable pub name : DatasetConfig → Text
name (DatasetConfig.parquet_source c) = c.name
name (DatasetConfig.csv_source c) = c.name
name (DatasetConfig.postgres_source c) = c.name
name (DatasetConfig.delta_source c) = c.name

unfoldable pub namespace : DatasetConfig → Text
namespace (DatasetConfig.parquet_source c) = c.namespace
namespace (DatasetConfig.csv_source c) = c.namespace
namespace (DatasetConfig.postgres_source c) = c.namespace
namespace (DatasetConfig.delta_source c) = c.namespace

unfoldable pub source_type : DatasetConfig → Text
source_type (DatasetConfig.parquet_source c) = codes "parquet"
source_type (DatasetConfig.csv_source c) = codes "csv"
source_type (DatasetConfig.postgres_source c) = codes "postgres"
source_type (DatasetConfig.delta_source c) = codes "delta"

-- The UTF-8 of a `char`.
unfoldable pub utf8 : ℕ → Text
utf8 c =
    if ltb c 0x80
    then c ∷ []
    else if ltb c 0x800
    then (0xC0 + c / 64) ∷ (0x80 + c % 64) ∷ []
    else if ltb c 0x10000
    then (0xE0 + c / 4096) ∷ (0x80 + c / 64 % 64) ∷ (0x80 + c % 64) ∷ []
    else (0xF0 + c / 262144) ∷ (0x80 + c / 4096 % 64) ∷ (0x80 + c / 64 % 64) ∷ (0x80 + c % 64) ∷ []

-- The objects of `json!`, their entries in the order of their keys.
unfoldable pub metadata_json : DatasetConfig → Value
metadata_json (DatasetConfig.parquet_source c) = object (entry (codes "path") (string c.path) end)
metadata_json (DatasetConfig.csv_source c) = object (
    entry (codes "delimiter") (string (utf8 c.delimiter))
      (entry (codes "has_header") (bool c.has_header) (entry (codes "path") (string c.path) end)))
metadata_json (DatasetConfig.postgres_source c) = object (
    entry (codes "database") (string c.database) (
      entry (codes "host") (string c.host) (
        entry (codes "port") (number c.port) (
          entry (codes "schema") (string c.schema) (
            entry (codes "table") (string c.table)
              (entry (codes "username") (string c.username) end))))))
metadata_json (DatasetConfig.delta_source c) = object (entry (codes "path") (string c.path) end)
