-- ===== src/Query/Main.antt =====
-- crates/elan-query/src/main.rs, with the connection of `SessionFactory::new`.
pub mod Agrees
use elan.Common.{ℕ, List, Option, Text, Result, ok, err, ◌>>=◌, map_err}
use elan.Common.External.{Uuid, UuidCodec, Serde}
use elan.Domain.Errors.{Status}
use elan.Domain.Proto.{DatasetProto, PolicyProto}
use elan.Iam.Types.{Subject}
use elan.Query.Catalog.Provider.{TableError}
use elan.Query.Catalog.Table.{ArrowIpc}
use elan.Query.Session.{
  SessionFactory, Session, new_factory, load_datasets, load_iam_policies, build_for_user,
}
use elan.Startup.Args.{config_path}
use elan.Startup.Layers.{ConfigApi, load_query}

-- The network as the process meets it: opening a channel, the answers of the central services to
-- the two calls of the start, opening the channel of the audit sink, and binding a listener.
pub record Network (A : Type 0) : Type 0 where
  pub connect : Text → Result Text (Unit {0})
  pub list_datasets : Result Status (List (Result Status DatasetProto))
  pub list_policies : Result Status (List (Result Status PolicyProto))
  pub connect_sink : Text → Result Text (Unit {0})
  pub bind : Text → Result Text A

pub data Sink : Type 0 where
  central_sink : Text → Sink
  no_op_sink : Sink

-- `AppState`, with the listener that it is served on.
pub record AppState (A : Type 0) : Type 0 where
  pub session_factory : SessionFactory
  pub audit : Sink
  pub instance_name : Text
  pub listener : A

-- A sink that cannot be connected is replaced by one that drops its events.
sink_of : Text → Result Text (Unit {0}) → Sink
sink_of endpoint (ok _) = central_sink endpoint
sink_of endpoint (err e) = no_op_sink

module _ {A B : Type 0} (api : ConfigApi B) (network : Network A) (error_text : TableError → Text)
    (uuids : UuidCodec) (serde : Serde) (new_v4 : ℕ → Uuid) where
  -- `SessionFactory::new`
  unfoldable pub connected_factory : Text → Result Text SessionFactory
  connected_factory central_endpoint = do
    _ ← network.connect central_endpoint
    map_err error_text (
        new_factory (load_datasets uuids serde network.list_datasets)
          (load_iam_policies uuids new_v4 network.list_policies))

  unfoldable pub main : List Text → Result Text (AppState A)
  unfolding sink_of
  main args = do
    cfg ← load_query api (config_path args)
    session_factory ← connected_factory cfg.central_endpoint
    listener ← network.bind cfg.http_addr
    ok (record {
      session_factory = session_factory;
      audit = sink_of cfg.central_endpoint (network.connect_sink cfg.central_endpoint);
      instance_name = cfg.instance_name;
      listener = listener;
    })

-- The sessions of `AppState`.
unfoldable pub build :
    {A : Type 0} → UuidCodec → Serde → ArrowIpc → AppState A → Subject → Result Text Session
build uuids serde ipc state subject =
    ok (build_for_user uuids serde ipc subject state.session_factory)
