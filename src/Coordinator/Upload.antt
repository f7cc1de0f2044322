-- ===== src/Coordinator/Upload.antt =====
-- crates/elan-coordinator/src/upload.rs and http/health.rs. The file system and the object store are
-- parameters.
pub mod Stored
pub mod Course
use elan.Common.{
  ℕ, ◌++◌, [], ◌∷◌, List, Bool, true, Option, none, some, Text, codes, Result, ok, err,
}
use elan.Coordinator.Config
use elan.Coordinator.Config.{DatasetConfig, ObjectStoreConfig}
use elan.Executor.Config.{S3Settings}

-- The calls of `tokio::fs::read`, `Path::file_name` and the crate object_store. A client of a bucket
-- is a value of `H`, the bucket one of `B`.
pub record Files (H B : Type 0) : Type 0 where
  pub read : Text → Option (List ℕ)
  pub file_name : Text → Option Text
  pub build : S3Settings → Result Text H
  pub put : H → Text → List ℕ → B → Option B

-- The path and the namespace of a dataset that is a file.
unfoldable pub file_of : DatasetConfig → Option (Text × Text)
file_of (DatasetConfig.csv_source c) = some (c.path, c.namespace)
file_of (DatasetConfig.parquet_source c) = some (c.path, c.namespace)
file_of (DatasetConfig.postgres_source c) = none
file_of (DatasetConfig.delta_source c) = none

module _ {H B : Type 0} (files : Files H B) where
  unfoldable pub build_store : ObjectStoreConfig → Result Text H
  build_store cfg = files.build (record {
    endpoint = cfg.endpoint;
    access_key_id = cfg.access_key;
    secret_access_key = cfg.secret_key;
    bucket_name = cfg.bucket;
    region = codes "us-east-1";
    allow_http = cfg.allow_http;
  })

  name_or : Option Text → Text → Text
  name_or none t = t
  name_or (some n) t = n

  unfoldable pub s3_key : Text → Text → Text → Text
  unfolding name_or
  s3_key namespace local_path dataset_name =
      namespace ++ (b'/' ∷ name_or (files.file_name local_path) dataset_name)

  put_or_keep : B → Option B → B
  put_or_keep b none = b
  put_or_keep b (some b') = b'

  -- `upload_file`
  upload_data : H → Text → Option (List ℕ) → B → B
  upload_data store key none b = b
  upload_data store key (some data_) b = put_or_keep b (files.put store key data_ b)

  upload_one : H → DatasetConfig → Option (Text × Text) → B → B
  upload_one store dataset none b = b
  upload_one store dataset (some (path, ns)) b =
      upload_data store (s3_key ns path (Config.name dataset)) (files.read path) b

  -- The loop: a failed upload is logged and the next dataset is tried.
  pub upload_all : H → List DatasetConfig → B → B
  unfolding upload_one upload_data put_or_keep
  upload_all store [] b = b
  upload_all store (d ∷ ds) b = upload_all store ds (upload_one store d (file_of d) b)

  uploaded : Result Text H → List DatasetConfig → B → Result Text (Unit {0}) × B
  uploaded (err e) datasets b = (err e, b)
  uploaded (ok store) datasets b = (ok tt, upload_all store datasets b)

  unfoldable pub upload_datasets :
      List DatasetConfig → ObjectStoreConfig → B → Result Text (Unit {0}) × B
  unfolding uploaded
  upload_datasets datasets cfg b = uploaded (build_store cfg) datasets b

pub record AuthCheckResponse : Type 0 where
  pub allowed : Bool
  pub reason : Text

-- `auth_check`
unfoldable pub auth_check : Text → Text → AuthCheckResponse
auth_check dataset caller = record {
  allowed = true;
  reason = codes "PoC: all access allowed by coordinator";
}
