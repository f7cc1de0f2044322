-- ===== src/Lib.antt =====
-- A verification library for elan, a federated SQL engine with central access control.
--
-- The program. elan-central keeps the catalog of datasets and the access policies in SQLite and
-- serves them over gRPC, together with an audit stream. Coordinators register the datasets of their
-- configuration with it and upload files. elan-query loads datasets and policies from it, plans SQL
-- for one user at a time under the policies, and sends each scan of a remote table to the executor
-- of the dataset, which runs SQL over its mounted files. The terminal client sends queries to
-- elan-query and shows the audit stream.
--
-- The files, with the code that they model:
--   Common: texts as lists of bytes, results, lists and sorting; Common/Decimal is the decimal print
--     and parse of unsigned integers; Common/External has the parameters for the crates uuid and
--     serde_json; Common/Exec is stateful fallible code, which keeps what was written before an error.
--   Domain: crates/elan-common/src/types and error.rs, the messages of proto/*.proto, the public data
--     of arrow and datafusion that elan reads, and physical plans.
--   Iam: crates/elan-iam/src. Iam.Types has the matching of policies, Iam.Engine the engine `check`,
--     Iam.CatalogFilter `is_visible`, and Iam.Optimizer the rule `apply_iam` on plans.
--   Central: crates/elan-central/src. Central.IamStore and Central.CatalogStore are db/iam_store.rs
--     and db/catalog_store.rs, each table a list of rows; Central.IamService, CoordinatorService,
--     CatalogService and AuditService are the services of grpc/, and Central.Main is main.rs.
--   Audit: crates/elan-audit/src, the events and what the sinks hand over.
--   Query: crates/elan-query/src. Query.Session is session.rs, Query.Catalog the providers of
--     catalog/, Query.RemoteScan planner/remote_scan.rs, Query.Http http/query.rs,
--     Query.OptimizerRule the rule of a session, and Query.Main main.rs.
--   Coordinator: crates/elan-coordinator/src (config.rs, dataset.rs, registration.rs, upload.rs,
--     heartbeat.rs and main.rs).
--   Executor: crates/elan-executor/src (config.rs, context.rs, sql_service.rs, auth.rs, main.rs).
--   Tui: crates/elan-tui/src. Tui is the state of app.rs and the event loop of main.rs, Tui.View the
--     drawing of app.rs, and Tui.Client client/ and the spawned tasks of main.rs.
--   Startup: the arguments of all programs, and config.rs of elan-central and elan-query.
--   Examples: concrete parameters and inputs.
--
-- State and effects. A store is a record of its tables; a call that may fail and change it is a
-- function from the state to a result and the state. The identifiers of `Uuid::new_v4` and the clock
-- are arguments. A gRPC stream is the list of its items. A statement of SQLite either changes its
-- table or fails on a constraint of migrations/*.sql; what the order of the constraint checks leaves
-- open is the record Central.CatalogStore.Setup. The terminal client is a step relation over events.
--
-- Bounds and fuel. Numbers are unbounded naturals with the wrap of a machine integer written out: a
-- port and a scroll position are 16 bits, and the priority of a policy is cast to 32. A panic on
-- overflow is `none`, and the flag overflow_checks says how the program is built. The decimal print
-- runs on the number itself as fuel, which has no fewer units than digits. All other recursion is on
-- the structure of its argument.
--
-- Parameters. The crates uuid, serde_json, config, datafusion, ballista, arrow, object_store, reqwest,
-- tokio, ratatui and tui-textarea are records of the calls that are used; what is relied on of them is
-- a named hypothesis.
--
-- Not modelled: the raw mode of the terminal, the parsing of configuration files, locks and the
-- interleaving of tasks, logging, the construction of clients, the connection to the database, and the
-- health endpoints. The start of a process is a sequence of calls, each of which may fail.
pub mod Common
pub mod Domain
pub mod Iam
pub mod Central
pub mod Audit
pub mod Query
pub mod Coordinator
pub mod Executor
pub mod Tui
pub mod Examples
pub mod Startup
