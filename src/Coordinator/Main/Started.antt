-- ===== src/Coordinator/Main/Started.antt =====
-- What a coordinator that runs has done.
use elan.Common.{
  ℕ, ◌≡◌, refl, sym, ap, ◌∙◌, subst, ◌++◌, [], ◌∷◌, List, Option, none, some, Text, Result, ok, All,
}
use elan.Common.External.{Uuid, UuidCodec, Serde}
use elan.Common.Exec.{lift, >>=-ran}
use elan.Startup.Args.{config_path}
use elan.Coordinator.Config.{DatasetConfig, ObjectStoreConfig, CoordinatorConfig}
use elan.Coordinator.Dataset.{Probe}
use elan.Domain.Errors.{Status}
use elan.Domain.Catalog.{DatasetInfo}
use elan.Central.Database.{DbError}
use elan.Central.CatalogStore.{CatalogStore, Setup, get_dataset}
use elan.Central.CatalogStore.Others.{AreReadable}
use elan.Central.CoordinatorService.Registration.{IsPublished}
use elan.Coordinator.Config
use elan.Coordinator.Registration.{CoordinatorClient, register}
use elan.Coordinator.Registration.Published.{central_client, AreDistinct, register-IsPublished}
use elan.Coordinator.Upload.{Files, upload_datasets}
use elan.Coordinator.Upload.Course.{HasUploaded, upload_datasets-HasUploaded}
use elan.Coordinator.Main.{
  Task, Site, path_or_default, on_central, spawn, upload, announce, start, main,
}

now_done : {S : Type 0} {p q : Result Text (Unit {0}) × S} → p ≡ q → p.0 ≡ ok tt → q.0 ≡ ok tt
now_done e h = sym (ap (λ r. r.0) e) ∙ h

-- The bucket after the uploads.
module _ {H B : Type 0} (files : Files H B) where
  bucket_after : List DatasetConfig → Option ObjectStoreConfig → B → B
  bucket_after datasets none b = b
  bucket_after datasets (some s3_cfg) b = (upload_datasets files datasets s3_cfg b).1

module _ {S B A H : Type 0} (client : CoordinatorClient S) (files : Files H B) (probe : Probe)
    (uuids : UuidCodec) (serde : Serde) (new_v4 : ℕ → Uuid)
    (load : Text → Result Text CoordinatorConfig) (connect : Text → Result Text (Unit {0}))
    (parse_addr : Text → Result Text A) where
  upload_site :
      (datasets : List DatasetConfig) (o : Option ObjectStoreConfig) (site : Site S B A)
      → (upload client files probe uuids serde new_v4 load connect parse_addr datasets o site).1
        ≡ record site { bucket = bucket_after files datasets o site.bucket }
  unfolding upload bucket_after
  upload_site datasets none site = refl
  upload_site datasets (some s3_cfg) site = refl

  upload-HasUploaded :
      (datasets : List DatasetConfig) (o : Option ObjectStoreConfig) (site : Site S B A)
      → (upload client files probe uuids serde new_v4 load connect parse_addr datasets o site).0
        ≡ ok tt
      → HasUploaded files datasets o site.bucket (bucket_after files datasets o site.bucket)
  unfolding upload bucket_after
  upload-HasUploaded datasets none site ran = refl
  upload-HasUploaded datasets (some s3_cfg) site ran =
      upload_datasets-HasUploaded files datasets s3_cfg site.bucket ran

  announce_ran :
      (cfg : CoordinatorConfig) (site : Site S B A)
      → (announce client files probe uuids serde new_v4 load connect parse_addr cfg site).0 ≡ ok tt
      → ((register client probe uuids serde new_v4 cfg site.central).0 ≡ ok tt)
        × (addr : A) × (announce client files probe uuids serde new_v4 load connect parse_addr cfg
              site
            ≡ (
              ok tt,
              record {
                central = (register client probe uuids serde new_v4 cfg site.central).1;
                bucket = site.bucket;
                tasks =
                    (site.tasks ++ Task.http_server addr ∷ [])
                    ++ Task.heartbeats cfg.coordinator.id ∷ [];
              },
            ))
  unfolding announce on_central spawn
  announce_ran cfg site done =
      let (_, connected, e1) = >>=-ran (lift (connect cfg.central_endpoint)) _ site done in
      let (_, registered, e2) =
        >>=-ran
          (on_central client files probe uuids serde new_v4 load connect parse_addr
            (register client probe uuids serde new_v4 cfg))
          _ site (now_done e1 done) in
      let (addr, parsed, e3) =
        >>=-ran (lift (parse_addr cfg.http_addr)) _ _ (now_done (e1 ∙ e2) done) in
      (registered, addr, e1 ∙ e2 ∙ e3)

  main_ran :
      (args : List Text) (cfg : CoordinatorConfig) (site : Site S B A)
      → load (path_or_default (config_path args)) ≡ ok cfg
      → (main client files probe uuids serde new_v4 load connect parse_addr args site).0 ≡ ok tt
      → ((register client probe uuids serde new_v4 cfg site.central).0 ≡ ok tt)
        × HasUploaded files cfg.datasets cfg.object_store site.bucket
            (bucket_after files cfg.datasets cfg.object_store site.bucket)
        × (addr : A) × (main client files probe uuids serde new_v4 load connect parse_addr args site
            ≡ (
              ok tt,
              record {
                central = (register client probe uuids serde new_v4 cfg site.central).1;
                bucket = bucket_after files cfg.datasets cfg.object_store site.bucket;
                tasks =
                    (site.tasks ++ Task.http_server addr ∷ [])
                    ++ Task.heartbeats cfg.coordinator.id ∷ [];
              },
            ))
  unfolding main start
  main_ran args cfg site loaded done =
      let e : main client files probe uuids serde new_v4 load connect parse_addr args site
          ≡ start client files probe uuids serde new_v4 load connect parse_addr cfg site =
        rw loaded refl in
      let (_, uploaded, e1) =
        >>=-ran
          (upload client files probe uuids serde new_v4 load connect parse_addr cfg.datasets
            cfg.object_store)
          (λ done. announce client files probe uuids serde new_v4 load connect parse_addr cfg) site
          (now_done e done) in
      let e2 =
        ap (announce client files probe uuids serde new_v4 load connect parse_addr cfg)
          (upload_site cfg.datasets cfg.object_store site) in
      let (registered, addr, e3) =
        announce_ran cfg
          (record site { bucket = bucket_after files cfg.datasets cfg.object_store site.bucket })
          (now_done (e ∙ e1 ∙ e2) done) in
      (
        registered,
        upload-HasUploaded cfg.datasets cfg.object_store site uploaded,
        addr,
        e ∙ e1 ∙ e2 ∙ e3,
      )

module _ {B A H : Type 0} (files : Files H B) (probe : Probe) (uuids : UuidCodec) (serde : Serde)
    (new_v4 : ℕ → Uuid) (load : Text → Result Text CoordinatorConfig)
    (connect : Text → Result Text (Unit {0})) (parse_addr : Text → Result Text A)
    (status_text : Status → Text) (db_text : DbError → Text) (db : Setup) (now : ℕ)
    (never_empty : serde.from_str [] ≡ none) where
  -- The process, over the central service.
  abbrev pub started :
      List Text → Site CatalogStore B A → Result Text (Unit {0}) × Site CatalogStore B A
  started =
      main (central_client status_text db_text db now) files probe uuids serde new_v4 load connect
        parse_addr

  -- A coordinator that comes to run has built a client of its object store and tried to upload
  -- each of its files in order, those that it could read and put under their namespace and name and
  -- the others without effect, or has left the bucket alone if no object store is configured. It
  -- has registered with all of its datasets, which the catalog shows, and runs its HTTP server and
  -- then its heartbeats. It is assumed that no two of its datasets share a namespace and name, that
  -- the identifiers stored before can be read, and that no JSON value is read from an empty text.
  pub main-IsPublished :
      (args : List Text) (cfg : CoordinatorConfig) (site : Site CatalogStore B A)
      → load (path_or_default (config_path args)) ≡ ok cfg
      → AreReadable uuids site.central.datasets
      → AreDistinct cfg.datasets
      → (started args site).0 ≡ ok tt
      → All
          (λ dataset.
            (d : DatasetInfo) × (get_dataset uuids serde
                (Config.namespace dataset)
                (Config.name dataset)
                (started args site).1.central
              ≡ ok (some d))
            × IsPublished probe dataset cfg.coordinator.id cfg.executor_endpoint d)
          cfg.datasets
        × HasUploaded files cfg.datasets cfg.object_store site.bucket (started args site).1.bucket
        × (addr : A) × ((started args site).1.tasks
            ≡ (site.tasks ++ Task.http_server addr ∷ []) ++ Task.heartbeats cfg.coordinator.id ∷ [])
  main-IsPublished args cfg site loaded readable distinct done =
      let (ran, sent, addr, e) =
        main_ran (central_client status_text db_text db now) files probe uuids serde new_v4 load
          connect parse_addr args cfg site loaded done in
      let shown =
        register-IsPublished uuids serde probe status_text db_text db now new_v4 never_empty cfg
          site.central readable distinct ran in
      (
        subst
            (λ (s : CatalogStore).
              All
                (λ dataset.
                  (d : DatasetInfo) × (get_dataset uuids serde (Config.namespace dataset)
                      (Config.name dataset) s
                    ≡ ok (some d))
                  × IsPublished probe dataset cfg.coordinator.id cfg.executor_endpoint d)
                cfg.datasets)
            (sym (ap (λ (r : Result Text (Unit {0}) × Site CatalogStore B A). r.1.central) e))
            shown,
        subst (HasUploaded files cfg.datasets cfg.object_store site.bucket)
            (sym (ap (λ (r : Result Text (Unit {0}) × Site CatalogStore B A). r.1.bucket) e)) sent,
        addr,
        ap (λ (r : Result Text (Unit {0}) × Site CatalogStore B A). r.1.tasks) e,
      )
