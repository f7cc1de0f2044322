-- ===== src/Central/Main/Served.antt =====
-- The policies that elan-central decides on, from its start on.
use elan.Common.{◌≡◌, refl, ◌∙◌, List, none, Text, ok, []}
use elan.Common.External.{UuidCodec}
use elan.Central.Database.{DbError}
use elan.Central.IamStore
use elan.Central.IamStore.Listing.{list_policies-listing, listing_total}
use elan.Central.IamStore.Tables.{IsSound}
use elan.Central.IamService.{IamSvc}
use elan.Central.IamService.Serving.{Request, bootstrap, serve_all, serve_all-IsSynced}
use elan.Central.IamService.Soundness.{IsSynced}
use elan.Central.Main.{Pool, Host, Services, main}
use elan.Startup.Args.{config_path}
use elan.Startup.Layers.{ConfigApi, CentralConfig, load_central}

module _ {A B : Type 0} (api : ConfigApi B) (host : Host A) (db_text : DbError → Text)
    (uuids : UuidCodec) where
  -- Over tables whose references and identifiers are sound, and with addresses that can be read and
  -- bound, elan-central comes up on those tables. At any moment after it, whatever writing requests
  -- were served and whether they failed, its tables are sound and its engine holds exactly the
  -- policies that the store lists.
  pub main-IsSynced :
      (args : List Text) (cfg : CentralConfig) (pool : Pool) (grpc_addr http_listener : A)
      → load_central api (config_path args) ≡ ok cfg
      → host.connect cfg.database_url ≡ ok pool
      → IsSound uuids pool.iam.subjects pool.iam.policies
      → host.parse_addr cfg.grpc_addr ≡ ok grpc_addr
      → host.bind cfg.http_addr ≡ ok http_listener
      → (services : Services A) × (main api host db_text uuids args ≡ ok services)
        × (services.catalog ≡ pool.catalog)
        × (services.iam.store ≡ pool.iam)
        × ((qs : List Request) → IsSynced uuids (serve_all uuids db_text qs services.iam))
  unfolding main bootstrap
  main-IsSynced args cfg pool grpc_addr http_listener loaded opened sound parsed bound =
      let (ps, listed) = listing_total uuids sound in
      let e : IamStore.list_policies uuids none pool.iam ≡ ok ps =
        list_policies-listing uuids pool.iam ∙ listed in
      let iam : IamSvc = record { store = pool.iam; engine = ps } in
      (
        record {
          catalog = pool.catalog;
          iam = iam;
          broadcast = [];
          grpc_addr = grpc_addr;
          http_listener = http_listener;
        },
        rw (loaded, opened, e, parsed, bound) refl,
        refl,
        refl,
        λ qs. serve_all-IsSynced uuids db_text qs iam (record { tables = sound; synced = e }),
      )
