-- ===== src/Coordinator/Registration.antt =====
-- crates/elan-coordinator/src/registration.rs, over the calls of the central coordinator service.
pub mod Stored
pub mod Published
use elan.Common.{ℕ, ◌+◌, [], ◌∷◌, List, Bool, Text}
use elan.Common.External.{Uuid, UuidCodec, Serde}
use elan.Common.Exec.{Exec, ◌>>=◌, pure, lift}
use elan.Domain.Proto.{RegisterRequest, DatasetRegistration}
use elan.Coordinator.Config.{DatasetConfig, CoordinatorConfig}
use elan.Coordinator.Dataset.{Probe, to_registration}

-- The client: calls that change the state `S` of the central service.
pub record CoordinatorClient (S : Type 0) : Type 0 where
  pub register : RegisterRequest → Exec Text S Bool
  pub register_dataset : DatasetRegistration → Exec Text S Bool

module _ {S : Type 0} (client : CoordinatorClient S) (probe : Probe) (uuids : UuidCodec)
    (serde : Serde) (new_v4 : ℕ → Uuid) where
  unfoldable pub register_all : ℕ → Text → List DatasetConfig → Exec Text S (Unit {0})
  register_all n id [] = pure tt
  register_all n id (cfg ∷ cfgs) =
      lift (to_registration probe uuids serde (new_v4 n) cfg id) >>= λ registration.
      client.register_dataset registration >>= λ accepted. register_all (n + 1) id cfgs

  unfoldable pub register : CoordinatorConfig → Exec Text S (Unit {0})
  register cfg =
      client.register (record {
        coordinator_id = cfg.coordinator.id;
        environment = cfg.coordinator.environment;
        hostname = cfg.coordinator.hostname;
        executor_endpoint = cfg.executor_endpoint;
      })
      >>= λ accepted. register_all 0 cfg.coordinator.id cfg.datasets
