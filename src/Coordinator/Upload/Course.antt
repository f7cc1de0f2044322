-- ===== src/Coordinator/Upload/Course.antt =====
-- The course of the uploads, file by file.
use elan.Common.{
  Result, ok, err, Result-cases, ◌≡◌, refl, ◌++◌, [], ◌∷◌, List, ℕ, Option, none, some, Text,
  Option-cases, inl, inr,
}
use elan.Coordinator.Config
use elan.Coordinator.Config.{DatasetConfig, ObjectStoreConfig}
use elan.Coordinator.Upload.{
  Files, file_of, build_store, uploaded, upload_datasets, s3_key, name_or, put_or_keep, upload_data,
  upload_one, upload_all,
}

-- The last part of a path, or the name of the dataset where the path has none.
pub data IsLast (name : Text) : Option Text → Text → Type 0 where
  of_path : {file : Text} → IsLast name (some file) file
  of_dataset : IsLast name none name

module _ {H B : Type 0} (files : Files H B) (h : H) where
  -- The files of the datasets are read and put in order, each under its namespace and last name:
  -- one that cannot be read or put leaves the bucket as it is, and the next one has its turn.
  pub data Uploads : List DatasetConfig → B → B → Type 0 where
    all_tried : {b : B} → Uploads [] b b
    no_file :
        {d : DatasetConfig} {ds : List DatasetConfig} {b b' : B}
        → file_of d ≡ none
        → Uploads ds b b'
        → Uploads (d ∷ ds) b b'
    unread :
        {d : DatasetConfig} {ds : List DatasetConfig} {b b' : B} {local ns : Text}
        → file_of d ≡ some (local, ns)
        → files.read local ≡ none
        → Uploads ds b b'
        → Uploads (d ∷ ds) b b'
    refused :
        {d : DatasetConfig} {ds : List DatasetConfig} {b b' : B} {local ns last : Text}
        {content : List ℕ}
        → file_of d ≡ some (local, ns)
        → files.read local ≡ some content
        → IsLast (Config.name d) (files.file_name local) last
        → files.put h (ns ++ (b'/' ∷ last)) content b ≡ none
        → Uploads ds b b'
        → Uploads (d ∷ ds) b b'
    stored :
        {d : DatasetConfig} {ds : List DatasetConfig} {b a b' : B} {local ns last : Text}
        {content : List ℕ}
        → file_of d ≡ some (local, ns)
        → files.read local ≡ some content
        → IsLast (Config.name d) (files.file_name local) last
        → files.put h (ns ++ (b'/' ∷ last)) content b ≡ some a
        → Uploads ds a b'
        → Uploads (d ∷ ds) b b'

  name_or-IsLast : (o : Option Text) (name : Text) → IsLast name o (name_or files o name)
  unfolding name_or
  name_or-IsLast none name = of_dataset
  name_or-IsLast (some file) name = of_path

  upload_one-Uploads :
      (d : DatasetConfig) (ds : List DatasetConfig) (o : Option (Text × Text)) (b b' : B)
      → file_of d ≡ o
      → Uploads ds (upload_one files h d o b) b'
      → Uploads (d ∷ ds) b b'
  unfolding upload_one upload_data s3_key put_or_keep
  upload_one-Uploads d ds none b b' file rest = no_file file rest
  upload_one-Uploads d ds (some (local, ns)) b b' file rest =
      elim (Option-cases (files.read local)) [
        | inl e ↦ unread file e (rw e at rest)
        | inr (content, e) ↦
            let key = ns ++ (b'/' ∷ name_or files (files.file_name local) (Config.name d)) in
            let last = name_or-IsLast (files.file_name local) (Config.name d) in
            elim (Option-cases (files.put h key content b)) [
              | inl p ↦ refused file e last p (rw (e, p) at rest)
              | inr (a, p) ↦ stored file e last p (rw (e, p) at rest)
            ]
      ]

  pub upload_all-Uploads :
      (ds : List DatasetConfig) (b : B) → Uploads ds b (upload_all files h ds b)
  unfolding upload_all
  upload_all-Uploads [] b = all_tried
  upload_all-Uploads (d ∷ ds) b =
      upload_one-Uploads d ds (file_of d) b (upload_all files h (d ∷ ds) b) refl
        (upload_all-Uploads ds (upload_one files h d (file_of d) b))

module _ {H B : Type 0} (files : Files H B) where
  -- Without an object store the bucket is left alone; with one, its client could be built and each
  -- file was tried.
  abbrev pub HasUploaded : List DatasetConfig → Option ObjectStoreConfig → B → B → Type 0
  HasUploaded datasets none b b' = b' ≡ b
  HasUploaded datasets (some s3_cfg) b b' =
      (h : H) × (build_store files s3_cfg ≡ ok h) × Uploads files h datasets b b'

  pub upload_datasets-HasUploaded :
      (datasets : List DatasetConfig) (s3_cfg : ObjectStoreConfig) (b : B)
      → (upload_datasets files datasets s3_cfg b).0 ≡ ok tt
      → HasUploaded datasets (some s3_cfg) b (upload_datasets files datasets s3_cfg b).1
  unfolding upload_datasets uploaded
  upload_datasets-HasUploaded datasets s3_cfg b ran =
      elim (Result-cases (build_store files s3_cfg)) [
        | inl (h, e) ↦ (h, e, rw e (upload_all-Uploads files h datasets b))
        | inr (x, e) ↦
            let never : ◌≡◌ {A = Result Text (Unit {0})} (err x) (ok tt) = rw e at ran in
            absurd (cc)
      ]
