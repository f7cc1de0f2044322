-- ===== src/Executor/Main.antt =====
-- crates/elan-executor/src/main.rs: what the process starts, in its order, up to its end.
pub mod Served
use elan.Common.{
  ℕ, ◌++◌, [], ◌∷◌, List, Bool, Option, none, some, Text, codes, Result, ok, err, map_err,
}
use elan.Common.Exec
use elan.Common.Exec.{Exec, ◌>>=◌, ◌>>◌, lift}
use elan.Common.Decimal.{display_nat}
use elan.Startup.Args.{config_path}
use elan.Executor.Config.{ExecutorConfig, SessionApi, load, build_providers, register_all}
use elan.Executor.SqlService.{SqlServiceState}
use elan.Query.RemoteScan.Execute.{succ_u16}

-- How `main` ends before its time: with an error, or in a panic.
pub data Exit : Type 0 where
  failed : Text → Exit
  panicked : Exit

-- What `main` calls of tokio, tonic, Ballista and DataFusion. A socket address is a value of `A`, a
-- `SessionConfig` one of `K` and a session one of `C`.
pub record Runtime (A K C : Type 0) : Type 0 where
  pub parse_addr : Text → Result Text A
  pub show_addr : A → Text
  pub bind : Text → Result Text A
  pub default_session : K → Result Text C
  pub default_metrics_collector : Result Text (Unit {0})
  pub init_scheduler : Text → Result Text (Unit {0})
  pub connect : Text → Result Text (Unit {0})
  pub new_standalone_executor : Text → Result Text (Unit {0})
  pub ctrl_c : Result Text (Unit {0})

-- The tasks that run.
pub data Task (A K C P : Type 0) : Type 0 where
  sql_service : A → SqlServiceState P → Task A K C P
  scheduler : A → (K → Result Text C) → Task A K C P
  executor : Text → Task A K C P

module _ {A K C P S : Type 0} (runtime : Runtime A K C) (api : SessionApi C P S) where
  abbrev pub Main : Type 0 → Type 0
  Main = Exec Exit (List (Task A K C P))

  -- `?`
  abbrev attempt : {B : Type 0} → Result Text B → Main B
  attempt r = lift (map_err failed r)

  -- `tokio::spawn`
  abbrev spawn : Task A K C P → Main (Unit {0})
  spawn t tasks = (ok tt, tasks ++ t ∷ [])

  incremented : Option ℕ → Result Exit ℕ
  incremented none = err panicked
  incremented (some port) = ok port

  unfoldable pub host_port : Text → ℕ → Text
  host_port host port = host ++ (b':' ∷ display_nat port)

  -- The sessions of Ballista: the default state with the tables of the executor.
  with_tables : List (Text × P) → Result Text C → Result Text C
  with_tables providers (ok ctx) = register_all api providers ctx
  with_tables providers (err e) = err e

  unfoldable pub session_builder : List (Text × P) → K → Result Text C
  unfolding with_tables
  session_builder providers config = with_tables providers (runtime.default_session config)

  unfoldable pub start_scheduler_on_port : Text → ℕ → (K → Result Text C) → Main A
  start_scheduler_on_port host port builder = do
    attempt (map_err (λ e. codes "metrics error: " ++ e) runtime.default_metrics_collector)
    attempt (
        map_err (λ e. codes "scheduler init error: " ++ e)
          (runtime.init_scheduler (host_port host port)))
    addr ← attempt (runtime.bind (host_port host port))
    spawn (Task.scheduler addr builder)
    Exec.pure addr

  -- What `main` does once the SQL service is spawned.
  unfoldable pub start_ballista : ExecutorConfig → List (Text × P) → Main (Unit {0})
  start_ballista cfg providers = do
    scheduler_addr ← start_scheduler_on_port cfg.bind_host cfg.bind_port (session_builder providers)
    let url = codes "http://" ++ runtime.show_addr scheduler_addr
    attempt (runtime.connect url)
    attempt (map_err (λ e. codes "executor error: " ++ e) (runtime.new_standalone_executor url))
    spawn (Task.executor url)
    attempt runtime.ctrl_c

  -- `main`, over the parsed file of a path.
  unfoldable pub main : Bool → (Text → Result Text ExecutorConfig) → List Text → Main (Unit {0})
  unfolding incremented
  main overflow_checks parse args = do
    cfg ← attempt (load parse (config_path args))
    providers ← attempt (build_providers api cfg)
    http_port ← lift (incremented (succ_u16 overflow_checks cfg.bind_port))
    http_addr ← attempt (runtime.parse_addr (host_port cfg.bind_host http_port))
    spawn (
        Task.sql_service http_addr
          (record { providers = providers; object_store = cfg.object_store }))
    start_ballista cfg providers
