-- ===== src/Central/CoordinatorService.antt =====
-- crates/elan-central/src/grpc/coordinator_svc.rs. A stream is the list of its messages; `now` is
-- the clock at the call, and at the message of index n of a stream.
pub mod Registration
pub mod Heartbeats
use elan.Common.{
  ℕ, ◌+◌, [], ◌∷◌, List, Bool, true, Option, none, some, Text, Result, ok, err, map_err,
  none_if_empty,
}
use elan.Common.Exec.{Exec, ◌>>=◌, ◌>>◌, pure}
use elan.Domain.Errors.{Status}
use elan.Domain.Proto.{RegisterRequest, DatasetRegistration}
use elan.Central.Database.{DbError, to_status}
use elan.Central.CatalogStore
use elan.Central.CatalogStore.{CatalogStore, Setup, Catalog}

abbrev pub Coordination : Type 0 → Type 0
Coordination A = Exec Status CatalogStore A

module _ (db_text : DbError → Text) where
  abbrev on_catalog : {A : Type 0} → Catalog A → Coordination A
  on_catalog m s = let (r, t) = m s in (map_err (to_status db_text) r, t)

  unfoldable pub register : ℕ → RegisterRequest → Coordination Bool
  register now req = do
    on_catalog (
        CatalogStore.upsert_coordinator now req.coordinator_id req.environment req.hostname
          req.executor_endpoint)
    pure true

  unfoldable pub register_dataset : Setup → ℕ → DatasetRegistration → Coordination Bool
  register_dataset db now req = do
    on_catalog (
        CatalogStore.upsert_dataset db now req.coordinator_id req.dataset_id req.name req.namespace
          req.source_type req.coordinator_id req.arrow_schema_ipc (none_if_empty req.metadata_json))
    pure true

  unfoldable pub unregister_dataset : Text → Coordination (Unit {0})
  unregister_dataset dataset_id = on_catalog (CatalogStore.deactivate_dataset dataset_id)

-- The task of `heartbeat`: every message is answered alive, whatever the store says of it, until
-- the stream ends or fails.
unfoldable pub heartbeat :
    (ℕ → ℕ) → ℕ → List (Result Status Text) → CatalogStore → List Bool × CatalogStore
heartbeat now n [] s = ([], s)
heartbeat now n (err e ∷ stream) s = ([], s)
heartbeat now n (ok coordinator_id ∷ stream) s =
    let (alive, t) =
      heartbeat now (n + 1) stream (CatalogStore.heartbeat (now n) coordinator_id s).1 in
    (true ∷ alive, t)
