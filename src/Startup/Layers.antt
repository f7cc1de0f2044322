-- ===== src/Startup/Layers.antt =====
-- The configuration of elan-central and elan-query (config.rs of each): defaults, then a file, then
-- the environment, by the crate config. That crate is a parameter.
pub mod Precedence
pub mod QueryLayers
pub mod CentralLayers
use elan.Common.{ℕ, [], ◌∷◌, List, Option, none, some, Text, codes, Result, ok, err, ◌>>=◌, ◌++◌}

-- The values of a configuration.
pub data Setting : Type 0 where
  text : Text → Setting
  number : ℕ → Setting

-- A builder is a value of `B`. `build` gives the built configuration as its settings by key; a
-- setting is read as a text or as a 64-bit number, where that can be done.
pub record ConfigApi (B : Type 0) : Type 0 where
  pub builder : B
  pub set_default : Text → Setting → B → Result Text B
  pub add_file : Text → B → B
  pub add_environment : Text → Text → B → B
  pub build : B → Result Text (Text → Option Setting)
  pub as_text : Setting → Result Text Text
  pub as_u64 : Setting → Result Text ℕ

-- A field that `Deserialize` requires, and one that may be missing.
pub required : {A : Type 0} → (Setting → Result Text A) → Text → Option Setting → Result Text A
required read key none = err (codes "missing field " ++ key)
required read key (some v) = read v

pub optional : {A : Type 0} → (Setting → Result Text A) → Option Setting → Result Text (Option A)
optional read none = ok none
optional read (some v) = read v >>= λ a. ok (some a)

module _ {B : Type 0} (api : ConfigApi B) where
  set_defaults : List (Text × Setting) → B → Result Text B
  set_defaults [] b = ok b
  set_defaults ((k, v) ∷ rest) b = api.set_default k v b >>= set_defaults rest

  with_file : Option Text → B → B
  with_file none b = b
  with_file (some path) b = api.add_file path b

  -- The builder of `load`, with its defaults and the prefix of its environment variables.
  unfoldable pub layered :
      List (Text × Setting) → Text → Option Text → Result Text (Text → Option Setting)
  unfolding set_defaults with_file
  layered defaults prefix config_path = do
    b ← set_defaults defaults api.builder
    api.build (api.add_environment prefix (codes "__") (with_file config_path b))

-- `CentralConfig` and `QueryConfig`
pub record CentralConfig : Type 0 where
  pub grpc_addr : Text
  pub http_addr : Text
  pub database_url : Text

pub record QueryConfig : Type 0 where
  pub http_addr : Text
  pub central_endpoint : Text
  pub kafka_brokers : Option Text
  pub instance_name : Text
  pub iam_refresh_secs : ℕ

-- `Default for CentralConfig` and `Default for QueryConfig`
abbrev pub default_central : CentralConfig
default_central = record {
  grpc_addr = codes "0.0.0.0:50051";
  http_addr = codes "0.0.0.0:8080";
  database_url = codes "sqlite://elan_central.db";
}

abbrev pub default_query : QueryConfig
default_query = record {
  http_addr = codes "0.0.0.0:3000";
  central_endpoint = codes "http://localhost:50051";
  kafka_brokers = none;
  instance_name = codes "query-node-1";
  iam_refresh_secs = 60;
}

-- The calls of `set_default` in each `load`.
abbrev pub central_defaults : List (Text × Setting)
central_defaults =
    (codes "grpc_addr", text (codes "0.0.0.0:50051"))
    ∷ (codes "http_addr", text (codes "0.0.0.0:8080"))
    ∷ (codes "database_url", text (codes "sqlite://elan_central.db"))
    ∷ []

abbrev pub query_defaults : List (Text × Setting)
query_defaults =
    (codes "http_addr", text (codes "0.0.0.0:3000"))
    ∷ (codes "central_endpoint", text (codes "http://localhost:50051"))
    ∷ (codes "instance_name", text (codes "query-node-1"))
    ∷ (codes "iam_refresh_secs", number 60)
    ∷ []

module _ {B : Type 0} (api : ConfigApi B) where
  central_of : (Text → Option Setting) → Result Text CentralConfig
  unfolding required
  central_of settings = do
    grpc_addr ← required api.as_text (codes "grpc_addr") (settings (codes "grpc_addr"))
    http_addr ← required api.as_text (codes "http_addr") (settings (codes "http_addr"))
    database_url ← required api.as_text (codes "database_url") (settings (codes "database_url"))
    ok (record { grpc_addr = grpc_addr; http_addr = http_addr; database_url = database_url })

  query_of : (Text → Option Setting) → Result Text QueryConfig
  unfolding required optional
  query_of settings = do
    http_addr ← required api.as_text (codes "http_addr") (settings (codes "http_addr"))
    central_endpoint ←
        required api.as_text (codes "central_endpoint") (settings (codes "central_endpoint"))
    kafka_brokers ← optional api.as_text (settings (codes "kafka_brokers"))
    instance_name ← required api.as_text (codes "instance_name") (settings (codes "instance_name"))
    iam_refresh_secs ←
        required api.as_u64 (codes "iam_refresh_secs") (settings (codes "iam_refresh_secs"))
    ok (record {
      http_addr = http_addr;
      central_endpoint = central_endpoint;
      kafka_brokers = kafka_brokers;
      instance_name = instance_name;
      iam_refresh_secs = iam_refresh_secs;
    })

  unfoldable pub load_central : Option Text → Result Text CentralConfig
  unfolding central_of
  load_central config_path =
      layered api central_defaults (codes "ELAN_CENTRAL") config_path >>= central_of

  unfoldable pub load_query : Option Text → Result Text QueryConfig
  unfolding query_of
  load_query config_path = layered api query_defaults (codes "ELAN_QUERY") config_path >>= query_of
