-- ===== src/Central/Main.antt =====
-- crates/elan-central/src/main.rs, up to the wait for one of its servers to end.
pub mod Served
use elan.Common.{List, Text, Result, ok, err, ◌>>=◌, map_err, []}
use elan.Common.External.{UuidCodec}
use elan.Domain.Proto.{AuditEventProto}
use elan.Central.Database.{DbError}
use elan.Central.CatalogStore.{CatalogStore}
use elan.Central.IamService.{IamSvc}
use elan.Central.IamService.Serving.{bootstrap}
use elan.Central.IamStore.{IamStore}
use elan.Startup.Args.{config_path}
use elan.Startup.Layers.{ConfigApi, load_central}

-- The tables behind the pool, which the two stores share.
pub record Pool : Type 0 where
  pub catalog : CatalogStore
  pub iam : IamStore

-- `db::connect`, which runs the migrations, the reading of a socket address and the binding of a
-- listener.
pub record Host (A : Type 0) : Type 0 where
  pub connect : Text → Result Text Pool
  pub parse_addr : Text → Result Text A
  pub bind : Text → Result Text A

-- The state of the services at their start, with the addresses of the two servers.
pub record Services (A : Type 0) : Type 0 where
  pub catalog : CatalogStore
  pub iam : IamSvc
  pub broadcast : List AuditEventProto
  pub grpc_addr : A
  pub http_listener : A

module _ {A B : Type 0} (api : ConfigApi B) (host : Host A) (db_text : DbError → Text)
    (uuids : UuidCodec) where
  unfoldable pub main : List Text → Result Text (Services A)
  main args = do
    cfg ← load_central api (config_path args)
    pool ← host.connect cfg.database_url
    iam ← map_err db_text (bootstrap uuids pool.iam)
    grpc_addr ← host.parse_addr cfg.grpc_addr
    http_listener ← host.bind cfg.http_addr
    ok (record {
      catalog = pool.catalog;
      iam = iam;
      broadcast = [];
      grpc_addr = grpc_addr;
      http_listener = http_listener;
    })
