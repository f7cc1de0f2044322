-- ===== src/Executor/Config.antt =====
-- crates/elan-executor/src/config.rs and context.rs. DataFusion's `SessionContext` is a parameter.
pub mod Providers
use elan.Common.{ℕ, ◌++◌, [], ◌∷◌, List, Bool, Option, none, some, Text, codes, Result, ok, ◌>>=◌}

pub record ObjectStoreConfig : Type 0 where
  pub endpoint : Text
  pub access_key : Text
  pub secret_key : Text
  pub bucket : Text
  pub allow_http : Bool

pub data DatasetMount : Type 0 where
  parquet_mount : Text → Text → DatasetMount
  csv_mount : Text → Text → Bool → DatasetMount

unfoldable pub table_name : DatasetMount → Text
table_name (DatasetMount.parquet_mount name path) = name
table_name (DatasetMount.csv_mount name path has_header) = name

pub record ExecutorConfig : Type 0 where
  pub bind_host : Text
  pub bind_port : ℕ
  pub coordinator_url : Text
  pub object_store : Option ObjectStoreConfig
  pub datasets : List DatasetMount

-- `ExecutorConfig::default`
abbrev pub default_config : ExecutorConfig
default_config = record {
  bind_host = codes "0.0.0.0";
  bind_port = 50055;
  coordinator_url = codes "http://localhost:8081";
  object_store = none;
  datasets = [];
}

-- `load`, over the parsed file of a path.
unfoldable pub load : (Text → Result Text ExecutorConfig) → Option Text → Result Text ExecutorConfig
load parse none = ok default_config
load parse (some path) = parse path

-- The settings of an `AmazonS3Builder`.
pub record S3Settings : Type 0 where
  pub endpoint : Text
  pub access_key_id : Text
  pub secret_access_key : Text
  pub bucket_name : Text
  pub region : Text
  pub allow_http : Bool

-- A `SessionContext` is a value of `C`, a table provider one of `P`, an object store one of `S`.
pub record SessionApi (C P S : Type 0) : Type 0 where
  pub new : C
  pub build_store : S3Settings → Result Text S
  pub parse_url : Text → Result Text Text
  pub register_object_store : Text → S → C → C
  pub register_parquet : Text → Text → C → Result Text C
  pub register_csv : Text → Text → Bool → C → Result Text C
  pub register_table : Text → P → C → Result Text C
  pub deregister_table : Text → C → Result Text (Option P × C)

module _ {C P S : Type 0} (api : SessionApi C P S) where
  -- `register_object_store` of context.rs
  unfoldable pub register_store : ObjectStoreConfig → C → Result Text C
  register_store cfg ctx =
      api.build_store (record {
        endpoint = cfg.endpoint;
        access_key_id = cfg.access_key;
        secret_access_key = cfg.secret_key;
        bucket_name = cfg.bucket;
        region = codes "us-east-1";
        allow_http = cfg.allow_http;
      })
      >>= λ store. api.parse_url (codes "s3://" ++ (cfg.bucket ++ codes "/")) >>= λ url.
          ok (api.register_object_store url store ctx)

  -- `if let Some(s3_cfg) = &cfg.object_store { .. }`
  unfoldable pub with_store : Option ObjectStoreConfig → C → Result Text C
  with_store none ctx = ok ctx
  with_store (some s3_cfg) ctx = register_store s3_cfg ctx

  unfoldable pub register_mount : DatasetMount → C → Result Text C
  register_mount (DatasetMount.parquet_mount name path) ctx = api.register_parquet name path ctx
  register_mount (DatasetMount.csv_mount name path has_header) ctx =
      api.register_csv name path has_header ctx

  pub register_mounts : List DatasetMount → C → Result Text C
  register_mounts [] ctx = ok ctx
  register_mounts (m ∷ ms) ctx = register_mount m ctx >>= λ ctx'. register_mounts ms ctx'

  unfoldable pub pushed : Text → Option P → List (Text × P) → List (Text × P)
  pushed name none providers = providers
  pushed name (some provider) providers = (name, provider) ∷ providers

  -- The second loop: each table is taken out again.
  pub collect_mounts : List DatasetMount → C → Result Text (List (Text × P))
  collect_mounts [] ctx = ok []
  collect_mounts (m ∷ ms) ctx = api.deregister_table (table_name m) ctx >>= λ (provider, ctx').
      collect_mounts ms ctx' >>= λ rest. ok (pushed (table_name m) provider rest)

  unfoldable pub build_providers : ExecutorConfig → Result Text (List (Text × P))
  unfolding register_mounts collect_mounts
  build_providers cfg = with_store cfg.object_store api.new >>= λ ctx.
      register_mounts cfg.datasets ctx >>= λ ctx'. collect_mounts cfg.datasets ctx'

  -- The loop of `SqlServiceState::session`.
  unfoldable pub register_all : List (Text × P) → C → Result Text C
  register_all [] ctx = ok ctx
  register_all ((name, provider) ∷ rest) ctx =
      api.register_table name provider ctx >>= λ ctx'. register_all rest ctx'
