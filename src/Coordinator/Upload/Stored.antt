-- ===== src/Coordinator/Upload/Stored.antt =====
-- What the object store holds after the uploads.
use elan.Common.{
  ℕ, ◌≡◌, ◌≢◌, refl, ◌∙◌, ◌++◌, [], ◌∷◌, List, Option, none, some, Text, ok, All, Option-cases, inl,
  inr,
}
use elan.Coordinator.Config
use elan.Coordinator.Config.{DatasetConfig, ObjectStoreConfig}
use elan.Coordinator.Upload.{
  Files, file_of, build_store, s3_key, put_or_keep, upload_data, upload_one, upload_all, uploaded,
  upload_datasets,
}

module _ {H B : Type 0} (files : Files H B) where
  -- What is relied on of the object store: a key names the object of its path, a put that succeeds
  -- replaces the object of its path and leaves the others alone.
  pub record IsStore : Type 0 where
    pub path : Text → Text
    pub object : Text → B → Option (List ℕ)
    pub put_here :
        (h : H) (key : Text) (content : List ℕ) (b b' : B)
        → files.put h key content b ≡ some b'
        → object (path key) b' ≡ some content
    pub put_there :
        (h : H) (key : Text) (content : List ℕ) (b b' : B) (at : Text)
        → files.put h key content b ≡ some b'
        → at ≢ path key
        → object at b' ≡ object at b

  module _ (store : IsStore) where
    -- The dataset is no file, or its object has another path.
    abbrev IsElsewhere : Text → DatasetConfig → Option (Text × Text) → Type 0
    IsElsewhere at d none = Unit
    IsElsewhere at d (some (local, ns)) = at ≢ store.path (s3_key files ns local (Config.name d))

    abbrev pub Misses : Text → DatasetConfig → Type 0
    Misses at d = IsElsewhere at d (file_of d)

    upload_data_kept :
        (h : H) (key at : Text) (content : Option (List ℕ)) (b : B)
        → at ≢ store.path key
        → store.object at (upload_data files h key content b) ≡ store.object at b
    unfolding upload_data put_or_keep
    upload_data_kept h key at none b other = refl
    upload_data_kept h key at (some c) b other = elim (Option-cases (files.put h key c b)) [
      | inl e ↦ rw e refl
      | inr (b', e) ↦ rw e (store.put_there h key c b b' at e other)
    ]

    upload_one_kept :
        (h : H) (at : Text) (d : DatasetConfig) (o : Option (Text × Text)) (b : B)
        → IsElsewhere at d o
        → store.object at (upload_one files h d o b) ≡ store.object at b
    unfolding upload_one
    upload_one_kept h at d none b other = refl
    upload_one_kept h at d (some (local, ns)) b other = upload_data_kept h _ at _ b other

    upload_all_kept :
        (h : H) (at : Text) (ds : List DatasetConfig) (b : B)
        → All (Misses at) ds
        → store.object at (upload_all files h ds b) ≡ store.object at b
    unfolding upload_all
    upload_all_kept h at [] b others = refl
    upload_all_kept h at (d ∷ ds) b (other, others) =
        upload_all_kept h at ds (upload_one files h d (file_of d) b) others
        ∙ upload_one_kept h at d (file_of d) b other

    upload_all-append :
        (h : H) (ds later : List DatasetConfig) (b : B)
        → upload_all files h (ds ++ later) b ≡ upload_all files h later (upload_all files h ds b)
    unfolding upload_all
    upload_all-append h [] later b = refl
    upload_all-append h (d ∷ ds) later b =
        upload_all-append h ds later (upload_one files h d (file_of d) b)

    -- If the client of the bucket can be built, the uploads succeed, whatever becomes of each. A
    -- dataset whose file can be read and put is then stored under its namespace and file name, if no
    -- later dataset has the same path. What no dataset names is left as it was.
    pub upload_datasets_stored :
        (cfg : ObjectStoreConfig) (h : H) (earlier later : List DatasetConfig) (d : DatasetConfig)
        (local ns at : Text) (content : List ℕ) (b : B)
        → build_store files cfg ≡ ok h
        → file_of d ≡ some (local, ns)
        → files.read local ≡ some content
        → ((a : B)
            → (b' : B) × (files.put h (s3_key files ns local (Config.name d)) content a ≡ some b'))
        → All (Misses (store.path (s3_key files ns local (Config.name d)))) later
        → All (Misses at) (earlier ++ d ∷ later)
        → ((upload_datasets files (earlier ++ d ∷ later) cfg b).0 ≡ ok tt)
          × (store.object
                (store.path (s3_key files ns local (Config.name d)))
                (upload_datasets files (earlier ++ d ∷ later) cfg b).1
              ≡ some content)
          × (store.object at (upload_datasets files (earlier ++ d ∷ later) cfg b).1
              ≡ store.object at b)
    unfolding upload_datasets uploaded upload_all upload_one upload_data put_or_keep
    upload_datasets_stored cfg h earlier later d local ns at content b built file read puts others
          misses =
        let key = s3_key files ns local (Config.name d) in
        let before = upload_all files h earlier b in
        let (after, put) = puts before in
        let here : upload_one files h d (file_of d) before ≡ after = rw (file, read, put) refl in
        let stored =
          upload_all_kept h (store.path key) later after others
          ∙ store.put_here h key content before after put in
        let split = upload_all-append h earlier (d ∷ later) b in
        (
          rw built refl,
          rw (built, split, here) stored,
          rw built (upload_all_kept h at (earlier ++ d ∷ later) b misses),
        )
