-- ===== src/Coordinator/Main.antt =====
-- crates/elan-coordinator/src/main.rs: uploads, registration, and the tasks that then run.
pub mod Started
use elan.Common.{ℕ, ◌++◌, [], ◌∷◌, List, Option, none, some, Text, codes, Result, ok, err}
use elan.Common.External.{Uuid, UuidCodec, Serde}
use elan.Common.Exec.{Exec, ◌>>=◌, ◌>>◌, pure, lift}
use elan.Startup.Args.{config_path}
use elan.Coordinator.Config.{DatasetConfig, ObjectStoreConfig, CoordinatorConfig}
use elan.Coordinator.Dataset.{Probe}
use elan.Coordinator.Registration.{CoordinatorClient, register}
use elan.Coordinator.Upload.{Files, upload_datasets}

-- The tasks of the process: the HTTP server at its address, and the heartbeats of a coordinator.
pub data Task (A : Type 0) : Type 0 where
  http_server : A → Task A
  heartbeats : Text → Task A

-- What the process changes: the state of the central service, the bucket, and its tasks.
pub record Site (S B A : Type 0) : Type 0 where
  pub central : S
  pub bucket : B
  pub tasks : List (Task A)

abbrev pub path_or_default : Option Text → Text
path_or_default none = codes "config/coordinator.toml"
path_or_default (some path) = path

-- `load` is that of config.rs, `connect` opens a channel, and `parse_addr` reads a socket address.
module _ {S B A H : Type 0} (client : CoordinatorClient S) (files : Files H B) (probe : Probe)
    (uuids : UuidCodec) (serde : Serde) (new_v4 : ℕ → Uuid)
    (load : Text → Result Text CoordinatorConfig) (connect : Text → Result Text (Unit {0}))
    (parse_addr : Text → Result Text A) where
  abbrev pub Main : Type 0 → Type 0
  Main = Exec Text (Site S B A)

  on_central : {T : Type 0} → Exec Text S T → Main T
  on_central m site = let (r, s) = m site.central in (r, record site { central = s })

  spawn : Task A → Main (Unit {0})
  spawn t site = (ok tt, record site { tasks = site.tasks ++ t ∷ [] })

  unfoldable pub upload : List DatasetConfig → Option ObjectStoreConfig → Main (Unit {0})
  upload datasets none site = (ok tt, site)
  upload datasets (some s3_cfg) site =
      let (r, b) = upload_datasets files datasets s3_cfg site.bucket in
      (r, record site { bucket = b })

  -- What `main` does once the files are uploaded, up to the wait for one of its tasks to end.
  unfoldable pub announce : CoordinatorConfig → Main (Unit {0})
  unfolding on_central spawn
  announce cfg = do
    lift (connect cfg.central_endpoint)
    on_central (register client probe uuids serde new_v4 cfg)
    http_addr ← lift (parse_addr cfg.http_addr)
    spawn (Task.http_server http_addr)
    spawn (Task.heartbeats cfg.coordinator.id)

  unfoldable pub start : CoordinatorConfig → Main (Unit {0})
  unfolding upload
  start cfg = upload cfg.datasets cfg.object_store >>= λ done. announce cfg

  unfoldable pub main : List Text → Main (Unit {0})
  main args = lift (load (path_or_default (config_path args))) >>= start
