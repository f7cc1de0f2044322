-- ===== src/Executor/Main/Served.antt =====
-- The SQL service that an executor starts, and the scans that reach it.
use elan.Common.{
  ℕ, ◌+◌, ◌<◌, ◌≡◌, refl, sym, ap, ◌∙◌, ◌++◌, [], ◌∷◌, List, Bool, some, Text, Result, ok, err,
  append_assoc, append-nil, arith, map,
}
use elan.Common.Exec.{Exec, continue_with, ◌>>=◌, lift, pure}
use elan.Domain.Arrow.{ScalarValue}
use elan.Domain.Plan.{RemoteTableScanExec}
use elan.Startup.Args.{config_path}
use elan.Executor.Config.{ExecutorConfig, SessionApi, load, build_providers, table_name}
use elan.Executor.Config.Providers.{build_providers_served}
use elan.Executor.Config.Providers.Opened.{IsSession}
use elan.Executor.Config.Providers.Registered.{references}
use elan.Executor.SqlService.{StatusCode, Arrow, SqlServiceState, handle_sql}
use elan.Executor.SqlService.Dispatch.{
  received, IsFaithful, IsUniform, outcome, dispatch-handle_sql,
}
use elan.Executor.Main.{
  Runtime, Task, spawn, incremented, host_port, start_scheduler_on_port, start_ballista, main,
}
use elan.Query.Catalog.Provider.{get}
use elan.Query.RemoteScan.Execute.{Remote, succ_u16, sql_url, execute}
use elan.Query.RemoteScan.Execute.Ports.{execute_lem}
use elan.Query.RemoteScan.Sql.{build_sql}

-- A run that stops no task: it leaves those that run and adds to them.
record Adds {E T B : Type 0} (m : Exec E (List T) B) : Type 0 where
  adds : (tasks : List T) → (more : List T) × ((m tasks).1 ≡ tasks ++ more)

module _ {E T : Type 0} where
  Adds-lift : {B : Type 0} (r : Result E B) → Adds {T = T} (lift r)
  Adds-lift r = record { adds = λ tasks. ([], sym (append-nil tasks)) }

  Adds-pure : {B : Type 0} (b : B) → Adds {E = E} {T = T} (pure b)
  Adds-pure b = record { adds = λ tasks. ([], sym (append-nil tasks)) }

  continued :
      {B C : Type 0} (f : B → Exec E (List T) C) (tasks : List T) (p : Result E B × List T)
      → ((b : B) → Adds (f b))
      → ((more : List T) × (p.1 ≡ tasks ++ more))
      → (more : List T) × ((continue_with f p).1 ≡ tasks ++ more)
  continued f tasks (err e, later) k h = h
  continued f tasks (ok b, later) k (more, e) =
      let (more', e') = (k b).adds later in
      (more ++ more', e' ∙ ap (λ (x : List T). x ++ more') e ∙ append_assoc tasks more more')

  Adds-bind :
      {B C : Type 0} (m : Exec E (List T) B) (f : B → Exec E (List T) C)
      → Adds m
      → ((b : B) → Adds (f b))
      → Adds (m >>= f)
  Adds-bind m f h k = record { adds = λ tasks. continued f tasks (m tasks) k (h.adds tasks) }

succ_u16-lt :
    (overflow_checks : Bool) (port : ℕ)
    → port < 65535
    → succ_u16 overflow_checks port ≡ some (port + 1)
unfolding succ_u16
succ_u16-lt overflow_checks port h = ground (arith, h)

module _ {A K C P S : Type 0} (runtime : Runtime A K C) (api : SessionApi C P S) where
  Adds-spawn : (t : Task A K C P) → Adds (spawn runtime api t)
  Adds-spawn t = record { adds = λ tasks. (t ∷ [], refl) }

  Adds-start_scheduler_on_port :
      (host : Text) (port : ℕ) (builder : K → Result Text C)
      → Adds (start_scheduler_on_port runtime api host port builder)
  unfolding start_scheduler_on_port
  Adds-start_scheduler_on_port host port builder =
      search (Adds-bind, Adds-lift, Adds-spawn, Adds-pure)

  Adds-start_ballista :
      (cfg : ExecutorConfig) (providers : List (Text × P))
      → Adds (start_ballista runtime api cfg providers)
  unfolding start_ballista
  Adds-start_ballista cfg providers =
      search (Adds-start_scheduler_on_port, Adds-bind, Adds-lift, Adds-spawn)

  main_spawns :
      (overflow_checks : Bool) (parse : Text → Result Text ExecutorConfig) (args : List Text)
      (cfg : ExecutorConfig) (ps : List (Text × P)) (addr : A)
      → load parse (config_path args) ≡ ok cfg
      → build_providers api cfg ≡ ok ps
      → cfg.bind_port < 65535
      → runtime.parse_addr (host_port runtime api cfg.bind_host (cfg.bind_port + 1)) ≡ ok addr
      → (more : List (Task A K C P)) × ((main runtime api overflow_checks parse args []).1
          ≡ Task.sql_service addr (record { providers = ps; object_store = cfg.object_store })
            ∷ more)
  unfolding main incremented
  main_spawns overflow_checks parse args cfg ps addr loaded built low parsed =
      let port : succ_u16 overflow_checks cfg.bind_port ≡ some (cfg.bind_port + 1) =
        succ_u16-lt overflow_checks cfg.bind_port low in
      let running : List (Task A K C P) =
        Task.sql_service addr (record { providers = ps; object_store = cfg.object_store }) ∷ [] in
      let (more, e) = (Adds-start_ballista cfg ps).adds running in
      (more, rw (loaded, built, port, parsed) e)

  module _ (law : IsSession api) (arrow : Arrow C) (remote : Remote)
      (status_text : StatusCode → Text) (faithful : IsFaithful api arrow remote status_text) where
    -- An executor whose file is read, whose tables open, and whose host and port + 1 make an address
    -- starts its SQL service there before all else, for a port below 65535. In the session of a
    -- request the references of the configured tables resolve, each to its provider, and no others. A scan whose executor advertises the port itself, at
    -- any host by which its request reaches the service, ends as its SQL ends in that session, if
    -- the SQL is UTF-8 and its results are of one schema, and HTTP and the Arrow format keep what
    -- is sent.
    pub main_serves_scans :
        (overflow_checks : Bool) (parse : Text → Result Text ExecutorConfig) (args : List Text)
        (cfg : ExecutorConfig) (ps : List (Text × P)) (addr : A)
        (scalar_to_string : ScalarValue → Text) (s : RemoteTableScanExec) (host : Text)
        → load parse (config_path args) ≡ ok cfg
        → build_providers api cfg ≡ ok ps
        → cfg.bind_port < 65535
        → runtime.parse_addr (host_port runtime api cfg.bind_host (cfg.bind_port + 1)) ≡ ok addr
        → s.dataset.executor_endpoint ≡ host_port runtime api host cfg.bind_port
        → arrow.from_utf8 (build_sql scalar_to_string s) ≡ ok (build_sql scalar_to_string s)
        → ((ctx : C)
            → IsUniform api arrow remote status_text (arrow.sql ctx (build_sql scalar_to_string s)))
        → remote.post (sql_url host (cfg.bind_port + 1)) (build_sql scalar_to_string s)
          ≡ ok (
              received api arrow remote status_text (
                handle_sql arrow api
                  (record { providers = ps; object_store = cfg.object_store })
                  (build_sql scalar_to_string s)))
        → (ctx : C) × ((more : List (Task A K C P)) × ((main runtime api overflow_checks parse args
                []).1
              ≡ Task.sql_service addr (record { providers = ps; object_store = cfg.object_store })
                ∷ more))
          × ((r : Text) → law.table r ctx ≡ get r (references api law ps))
          × (map (λ e. e.0) ps ≡ map table_name cfg.datasets)
          × (execute overflow_checks remote scalar_to_string s
              ≡ some (
                  outcome api arrow remote status_text s.schema
                    (arrow.sql ctx (build_sql scalar_to_string s))))
    unfolding host_port
    main_serves_scans overflow_checks parse args cfg ps addr show s host loaded built low parsed
          advertised utf8 uniform reached =
        let (names, ctx, ready, resolves) = build_providers_served api law cfg ps built in
        let sent = execute_lem overflow_checks remote show s host cfg.bind_port advertised low in
        let state : SqlServiceState P = record {
          providers = ps;
          object_store = cfg.object_store;
        } in
        let answered =
          dispatch-handle_sql api arrow remote status_text s.schema faithful state ctx
            (sql_url host (cfg.bind_port + 1)) (build_sql show s) utf8 ready (uniform ctx)
            reached in
        (
          ctx,
          main_spawns overflow_checks parse args cfg ps addr loaded built low parsed,
          resolves,
          names,
          sent ∙ ap some answered,
        )
