-- ===== src/Examples/Startup.antt =====
-- Examples for the configuration of elan-query.
use elan.Common.{
  ◌≡◌, refl, subst, Option, none, some, Text, codes, Result, ok, err, text_eq, if◌then◌else◌,
}
use elan.Startup.Layers.{
  Setting, text, number, ConfigApi, QueryConfig, default_query, load_query, layered,
}
use elan.Startup.Layers.Precedence.{IsLayered, or}
use elan.Startup.Layers.QueryLayers.{IsConfigured, load_query-IsConfigured}

-- A builder is the map of its settings.
abbrev pub Settings : Type 0
Settings = Text → Option Setting

-- Every file names the node, and the environment names its brokers.
abbrev file : Text → Settings
file path k = if text_eq k (codes "instance_name") then some (text (codes "node-7")) else none

abbrev env : Text → Settings
env prefix k = if text_eq k (codes "kafka_brokers") then some (text (codes "k1:9092")) else none

abbrev pub as_text : Setting → Result Text Text
as_text (text t) = ok t
as_text (number n) = err (codes "no text")

abbrev pub api : ConfigApi Settings
api = record {
  builder = λ k. none;
  set_default = λ k v b. ok (λ j. if text_eq k j then some v else b j);
  add_file = λ path b k. or (file path k) (b k);
  add_environment = λ prefix separator b k. or (env prefix k) (b k);
  build = λ b. ok b;
  as_text = as_text;
  as_u64 = λ v. elim v [ number n ↦ ok n | text t ↦ err (codes "no number") ];
}

set_at :
    (k j : Text) (v : Setting) (b b' : Settings)
    → ◌≡◌ {A = Result Text Settings} (ok (λ i. if text_eq k i then some v else b i)) (ok b')
    → b' j ≡ (if text_eq k j then some v else b j)
set_at k j v b b' e =
    let same : (λ (i : Text). if text_eq k i then some v else b i) ≡ b' = cc in
    subst (λ (c : Settings). c j ≡ (if text_eq k j then some v else b j)) same refl

built_at :
    (b settings : Settings) (k : Text)
    → ◌≡◌ {A = Result Text Settings} (ok b) (ok settings)
    → settings k ≡ b k
built_at b settings k e =
    let same : b ≡ settings = cc in subst (λ (c : Settings). c k ≡ b k) same refl

law : IsLayered api
law = record {
  at = λ b k. b k;
  file = file;
  env = env;
  at-builder = λ k. refl;
  at-set_default = λ k j v b b' free e. set_at k j v b b' e;
  at-add_file = λ path k b. refl;
  at-add_environment = λ prefix k b. refl;
  build_at = built_at;
}

abbrev pub cfg : QueryConfig
cfg = record default_query {
  instance_name = codes "node-7";
  kafka_brokers = some (codes "k1:9092");
}

pub loaded : load_query api (some (codes "query.toml")) ≡ ok cfg
unfolding load_query layered
loaded = refl

load_query-IsConfigured_example : IsConfigured api law (some (codes "query.toml")) cfg
load_query-IsConfigured_example =
    load_query-IsConfigured api law (some (codes "query.toml")) cfg loaded
