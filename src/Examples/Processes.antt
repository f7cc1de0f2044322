-- ===== src/Examples/Processes.antt =====
-- Examples for the process of a coordinator.
use elan.Common.{
  ℕ, ◌≡◌, ◌≢◌, refl, subst, ◌&&◌, ◌||◌, [], ◌∷◌, ◌++◌, List, All, true, false, Option, none, some,
  Text, codes, Result, ok, any, arith, text_eq, text_eq_iff, text_eq_refl, if◌then◌else◌,
}
use elan.Domain.Catalog.{DatasetInfo}
use elan.Domain.Errors.{Status, internal}
use elan.Central.CatalogStore.{
  CatalogStore, get_dataset, is_live, upsert_coordinator, upsert_dataset,
}
use elan.Central.CoordinatorService
use elan.Central.CoordinatorService.Heartbeats.{is_registered}
use elan.Central.CoordinatorService.Registration.{IsPublished}
use elan.Coordinator.Config
use elan.Coordinator.Config.{DatasetConfig, ObjectStoreConfig, CoordinatorConfig}
use elan.Coordinator.Dataset.{to_registration, infer_schema}
use elan.Coordinator.Heartbeat.{run}
use elan.Coordinator.Heartbeat.Alive.{
  Connection, refused, streaming, served, delivers, pauses, run-served,
}
use elan.Coordinator.Main
use elan.Coordinator.Main.{Task, Site, start, announce}
use elan.Coordinator.Upload.Course.{HasUploaded}
use elan.Coordinator.Main.Started.{started, main-IsPublished}
use elan.Coordinator.Registration.{register, register_all}
use elan.Coordinator.Upload.{Files, build_store, file_of, s3_key, upload_datasets}
use elan.Coordinator.Upload.Stored.{IsStore, Misses, upload_datasets_stored}
use elan.Examples.Catalog.{db, db_text, probe, cfg, nothing_read, s}
use elan.Examples.Registration.{coordinator, prices, new_v4, stored_readable, distinct, status_text}
use elan.Examples.Codecs.{uuids, serde, write}

-- Three calls of a coordinator: one is refused, one breaks before its first request, and one
-- delivers two requests of which one is answered.
abbrev lost : Status
lost = record { code = internal; message = [] }

abbrev connections : List Connection
connections =
    refused lost
    ∷ streaming (record { opened = 5; delivered = 0; received = 0; broken = some lost })
    ∷ streaming (record { opened = 40; delivered = 2; received = 1; broken = none })
    ∷ []

run-served_example :
    (run (served (codes "c1") (λ n. n) connections s).0 ≡ pauses connections)
    × (is_live (served (codes "c1") (λ n. n) connections s).1.coordinators (codes "c1") ≡ (
        is_live s.coordinators (codes "c1")
        || (any delivers connections && is_registered (codes "c1") s.coordinators)))
run-served_example = run-served (codes "c1") (λ n. n) connections s

-- A bucket is the list of its objects, and every file reads as one byte.
abbrev Bucket : Type 0
Bucket = Text → Option (List ℕ)

abbrev put_object : Text → List ℕ → Bucket → Bucket
put_object key content b = λ at. if text_eq at key then some content else b at

abbrev files : Files (Unit {0}) Bucket
files = record {
  read = λ path. some (b'x' ∷ []);
  file_name = λ path. none;
  build = λ settings. ok tt;
  put = λ h key content b. some (put_object key content b);
}

put_here :
    (h : Unit {0}) (key : Text) (content : List ℕ) (b b' : Bucket)
    → ◌≡◌ {A = Option Bucket} (some (put_object key content b)) (some b')
    → b' key ≡ some content
put_here h key content b b' e =
    let same : put_object key content b ≡ b' = cc in
    subst (λ (c : Bucket). c key ≡ some content) same (rw (text_eq_refl key) refl)

put_there :
    (h : Unit {0}) (key : Text) (content : List ℕ) (b b' : Bucket) (at : Text)
    → ◌≡◌ {A = Option Bucket} (some (put_object key content b)) (some b')
    → at ≢ key
    → b' at ≡ b at
put_there h key content b b' at e other =
    let same : put_object key content b ≡ b' = cc in
    let apart : text_eq at key ≡ false = ground (arith, other, text_eq_iff at key) in
    subst (λ (c : Bucket). c at ≡ b at) same (rw apart refl)

store : IsStore files
store = record {
  path = λ key. key;
  object = λ at b. b at;
  put_here = put_here;
  put_there = put_there;
}

abbrev bucket_cfg : ObjectStoreConfig
bucket_cfg = record {
  endpoint = codes "http://minio:9000";
  access_key = codes "key";
  secret_key = codes "secret";
  bucket = codes "elan";
  allow_http = true;
}

abbrev empty : Bucket
empty at = none

trades_file : file_of cfg ≡ some (codes "/data/trades.csv", codes "finance")
unfolding file_of
trades_file = refl

built : build_store files bucket_cfg ≡ ok tt
unfolding build_store
built = refl

prices_named_else : All (Misses files store (codes "finance/trades")) (prices ∷ [])
unfolding store file_of s3_key Config.name
prices_named_else = (λ e. absurd (ground (arith, e)), tt)

nothing_named : All (Misses files store (codes "other")) (cfg ∷ prices ∷ [])
unfolding store file_of s3_key Config.name
nothing_named = (λ e. absurd (ground (arith, e)), (λ e. absurd (ground (arith, e)), tt))

upload_datasets_stored_example :
    ((upload_datasets files (cfg ∷ prices ∷ []) bucket_cfg empty).0 ≡ ok tt)
    × ((upload_datasets files (cfg ∷ prices ∷ []) bucket_cfg empty).1 (codes "finance/trades")
        ≡ some (b'x' ∷ []))
    × ((upload_datasets files (cfg ∷ prices ∷ []) bucket_cfg empty).1 (codes "other") ≡ none)
unfolding store s3_key Config.name
upload_datasets_stored_example =
    upload_datasets_stored files store bucket_cfg tt [] (prices ∷ []) cfg (codes "/data/trades.csv")
      (codes "finance") (codes "other") (b'x' ∷ []) empty built trades_file refl
      (λ a. (put_object (codes "finance/trades") (b'x' ∷ []) a, refl)) prices_named_else
      nothing_named

abbrev site : Site CatalogStore Bucket Text
site = record { central = s; bucket = empty; tasks = [] }

-- A coordinator with an object store.
abbrev uploading : CoordinatorConfig
uploading = record coordinator { object_store = some bucket_cfg }

abbrev load_file : Text → Result Text CoordinatorConfig
load_file path = ok uploading

abbrev connect : Text → Result Text (Unit {0})
connect url = ok tt

abbrev parse_addr : Text → Result Text Text
parse_addr t = ok t

abbrev ended : Result Text (Unit {0}) × Site CatalogStore Bucket Text
ended =
    started files probe uuids serde new_v4 load_file connect parse_addr status_text db_text db 9
      nothing_read [] site

came_to_run : ended.0 ≡ ok tt
unfolding Main.main start Main.upload upload_datasets build_store announce register register_all
    CoordinatorService.register CoordinatorService.register_dataset upsert_coordinator
    upsert_dataset to_registration infer_schema Config.name Config.namespace Config.source_type
    write
came_to_run = refl

main-IsPublished_example :
    All
      (λ dataset.
        (d : DatasetInfo) × (get_dataset uuids serde
            (Config.namespace dataset)
            (Config.name dataset)
            ended.1.central
          ≡ ok (some d))
        × IsPublished probe dataset (codes "c1") (codes "10.0.0.9:50055") d)
      (cfg ∷ prices ∷ [])
    × HasUploaded files (cfg ∷ prices ∷ []) (some bucket_cfg) empty ended.1.bucket
    × (addr : Text) × (ended.1.tasks
        ≡ ([] ++ Task.http_server addr ∷ []) ++ Task.heartbeats (codes "c1") ∷ [])
main-IsPublished_example =
    main-IsPublished files probe uuids serde new_v4 load_file connect parse_addr status_text db_text
      db 9 nothing_read [] uploading site refl stored_readable distinct came_to_run
