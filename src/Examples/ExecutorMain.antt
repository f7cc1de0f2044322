-- ===== src/Examples/ExecutorMain.antt =====
-- Examples for the process of the executor.
use elan.Common.{◌≡◌, refl, arith, ◌++◌, [], ◌∷◌, List, none, some, Text, codes, Result, ok, map}
use elan.Query.Catalog.Provider.{get}
use elan.Executor.Config.{table_name, ExecutorConfig, load, register_all, with_store}
use elan.Executor.SqlService.{SqlServiceState, session, encode, handle_sql}
use elan.Executor.SqlService.Dispatch.{received, outcome}
use elan.Common.{◌+◌, false}
use elan.Common.Decimal.{display_nat}
use elan.Domain.Arrow.{ScalarValue}
use elan.Domain.Plan.{RemoteTableScanExec}
use elan.Startup.Args.{config_path, flag_value}
use elan.Executor.Main.{Runtime, Task, main, host_port}
use elan.Executor.Main.Served.{main_serves_scans}
use elan.Query.RemoteScan.Execute.{execute, sql_url}
use elan.Query.RemoteScan.Sql.{build_sql}
use elan.Examples.Query.{trades_info}
use elan.Executor.Config.Providers.Registered.{references}
use elan.Examples.Sessions.{Tables, lookup, add_at, api, law}
use elan.Examples.Executor.{
  cfg, opened, all_opened, arrow, status_text, remote, faithful, unmounted, answer,
}

-- A process whose calls all succeed: an address is its text.
abbrev runtime : Runtime Text (Unit {0}) Tables
runtime = record {
  parse_addr = λ t. ok t;
  show_addr = λ a. a;
  bind = λ t. ok t;
  default_session = λ k. ok unmounted;
  default_metrics_collector = ok tt;
  init_scheduler = λ t. ok tt;
  connect = λ url. ok tt;
  new_standalone_executor = λ url. ok tt;
  ctrl_c = ok tt;
}

abbrev parse : Text → Result Text ExecutorConfig
parse path = ok cfg

abbrev args : List Text
args = codes "elan-executor" ∷ codes "--config" ∷ codes "executor.toml" ∷ []

abbrev scan : RemoteTableScanExec
scan = record {
  dataset = record trades_info { executor_endpoint = codes "10.0.0.5:" ++ display_nat 50055 };
  schema = [];
  pushed_filters = [];
  limit = none;
}

abbrev show_scalar : ScalarValue → Text
show_scalar v = codes "?"

abbrev opened_state : SqlServiceState Text
opened_state = record { providers = opened; object_store = none }

config_loaded : load parse (config_path args) ≡ ok cfg
unfolding load flag_value
config_loaded = refl

advertised : scan.dataset.executor_endpoint ≡ host_port runtime api (codes "10.0.0.5") 50055
unfolding host_port
advertised = refl

scan_reached :
    remote.post (sql_url (codes "10.0.0.5") (50055 + 1)) (build_sql show_scalar scan)
    ≡ ok (
        received api arrow remote status_text
          (handle_sql arrow api opened_state (build_sql show_scalar scan)))
unfolding handle_sql encode session with_store register_all add_at
scan_reached = refl

main_serves_scans_example :
    (ctx : Tables) × ((more : List (Task Text (Unit {0}) Tables Text)) × ((main runtime api false
          parse args []).1
        ≡ Task.sql_service (codes "0.0.0.0:50056") opened_state ∷ more))
    × ((r : Text) → lookup r ctx ≡ get r (references api law opened))
    × (map (λ e. e.0) opened ≡ map table_name cfg.datasets)
    × (execute false remote show_scalar scan
        ≡ some (outcome api arrow remote status_text [] answer))
unfolding law host_port display_nat
main_serves_scans_example =
    main_serves_scans runtime api law arrow remote status_text faithful false parse args cfg opened
      (codes "0.0.0.0:50056") show_scalar scan (codes "10.0.0.5") config_loaded all_opened
      (omega arith) refl advertised refl (λ ctx. tt) scan_reached
