-- ===== src/Examples/Servers.antt =====
-- Examples for the start of elan-central and of elan-query.
use elan.Common.{◌≡◌, refl, [], ◌∷◌, none, List, Text, codes, ok, err}
use elan.Central.CatalogService
use elan.Central.CatalogStore
use elan.Central.CatalogStore.{CatalogStore}
use elan.Central.IamService
use elan.Central.IamService.Serving.{Request, serve_all}
use elan.Central.IamService.Soundness.{IsSynced}
use elan.Central.Main
use elan.Central.Main.{Pool, Host, Services}
use elan.Central.Main.Served.{main-IsSynced}
use elan.Query.Main.{Network, AppState, main}
use elan.Query.Main.Agrees.{IsCentral, Offers, refreshed, main-agrees}
use elan.Query.Session.Policies.{streamed}
use elan.Startup.Args.{config_path, flag_value}
use elan.Startup.Layers.{default_central, load_central, load_query, layered}
use elan.Examples.Central.{db_text, granted, granted-IsSynced}
use elan.Examples.Codecs.{uuids, serde}
use elan.Examples.Served.{ipc, prices, prices_listed, s}
use elan.Examples.Startup.{api, cfg}

abbrev args : List Text
args = codes "elan-query" ∷ codes "--config" ∷ codes "query.toml" ∷ []

abbrev network : Network Text
network = record {
  connect = λ endpoint. ok tt;
  list_datasets = streamed (CatalogService.list_datasets uuids serde db_text [] s);
  list_policies = streamed (IamService.list_policies uuids db_text [] granted);
  connect_sink = λ endpoint. err (codes "refused");
  bind = λ addr. ok addr;
}

central : IsCentral uuids serde db_text network s granted
central = record { datasets = refl; policies = refl }

query_loaded : load_query api (config_path args) ≡ ok cfg
unfolding load_query layered flag_value
query_loaded = refl

-- The catalog without its dataset.
abbrev later : CatalogStore
later = record s { datasets = [] }

nothing_listed : CatalogStore.list_datasets uuids serde none later ≡ ok []
unfolding CatalogStore.list_datasets
nothing_listed = refl

main-agrees_example :
    (state : AppState Text) × (main api network (λ e. []) uuids serde (λ n. n) args ≡ ok state)
    × Offers uuids serde ipc state (prices ∷ []) granted.engine
    × Offers uuids serde ipc (refreshed uuids serde db_text later state) [] granted.engine
main-agrees_example =
    main-agrees api (λ e. []) uuids serde (λ n. n) ipc db_text network s later granted (prices ∷ [])
      [] args cfg (codes "0.0.0.0:3000") query_loaded refl refl central prices_listed nothing_listed
      granted-IsSynced

abbrev pool : Pool
pool = record { catalog = s; iam = granted.store }

abbrev host : Host Text
host = record { connect = λ url. ok pool; parse_addr = λ t. ok t; bind = λ t. ok t }

central_loaded : load_central api (config_path []) ≡ ok default_central
unfolding load_central layered flag_value
central_loaded = refl

main-IsSynced_example :
    (services : Services Text) × (Main.main api host db_text uuids [] ≡ ok services)
    × (services.catalog ≡ s)
    × (services.iam.store ≡ granted.store)
    × ((qs : List Request) → IsSynced uuids (serve_all uuids db_text qs services.iam))
main-IsSynced_example =
    main-IsSynced api host db_text uuids [] default_central pool (codes "0.0.0.0:50051")
      (codes "0.0.0.0:8080") central_loaded refl (granted-IsSynced.tables) refl refl
