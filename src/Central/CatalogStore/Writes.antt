-- ===== src/Central/CatalogStore/Writes.antt =====
-- What a registered dataset looks like to the next read.
use elan.Common.{
  ℕ, ◌≡◌, refl, ap, ◌∙◌, ◌++◌, [], ◌∷◌, List, Bool, true, false, ◌&&◌, none, some, Text, ◌⊎◌, inl,
  inr, find, any, Result, ok, arith, Bool-cases, text_eq_iff, text_eq_refl,
}
use elan.Common.External.{Uuid, UuidCodec, Serde, Value}
use elan.Common.Membership.{mem_of_find}
use elan.Domain.Catalog.{DatasetInfo, SourceType, display, try_from_iff}
use elan.Central.Database.{DbError}
use elan.Central.CatalogStore.{
  CoordinatorRow, DatasetRow, CatalogStore, Setup, update, is_coordinator, has_key, endpoint_of,
  refreshed, insert_or_update, upsert_dataset, is_live, is_shown, row_to_dataset, get_dataset,
}

contradiction : true ≡ false → ⊥
contradiction h = cc

module _ {A : Type 0} (k q : A → Bool) where
  pub any_of_find : (xs : List A) (x : A) → find k xs ≡ some x → any k xs ≡ true
  any_of_find [] x h = cc
  any_of_find (y ∷ ys) x h = ground (arith, any_of_find ys x)

  pub find_of_any : (xs : List A) → any k xs ≡ true → (x : A) × (find k xs ≡ some x)
  find_of_any [] h = cc
  find_of_any (y ∷ ys) h = elim (Bool-cases (k y)) [
    | inl here ↦ (y, rw here refl)
    | inr there ↦ let (x, e) = find_of_any ys (rw there at h) in (x, rw there e)
  ]

  none_of_free : (xs : List A) → any k xs ≡ false → find k xs ≡ none
  none_of_free [] h = refl
  none_of_free (y ∷ ys) h = ground (arith, none_of_free ys)

  module _ (narrows : (y : A) → k y ≡ false → q y ≡ false) where
    pub find-update :
        (f : A → A) (xs : List A) (x : A)
        → ((y : A) → k y ≡ true → q (f y) ≡ true)
        → find k xs ≡ some x
        → find q (update k f xs) ≡ some (f x)
    find-update f [] x keeps h = cc
    find-update f (y ∷ ys) x keeps h = elim (Bool-cases (k y)) [
      | inl here ↦
          let same : some y ≡ some x = rw here at h in
          let found : f y ≡ f x = ap f (cc) in rw (here, keeps y here) (ap some found)
      | inr there ↦ rw (there, narrows y there) (find-update f ys x keeps (rw there at h))
    ]

    pub find-append_new :
        (xs : List A) (x : A) → any k xs ≡ false → q x ≡ true → find q (xs ++ x ∷ []) ≡ some x
    find-append_new [] x h e = rw e refl
    find-append_new (y ∷ ys) x h e = elim (Bool-cases (k y)) [
      | inl here ↦ absurd (contradiction (rw here at h))
      | inr there ↦ rw (narrows y there) (find-append_new ys x (rw there at h) e)
    ]

module _ (db : Setup) (row : DatasetRow) (s : CatalogStore) where
  -- The two ways in which a row is stored.
  pub insert_or_update-stored :
      any (is_coordinator row.coordinator_id) s.coordinators ≡ true
      → (insert_or_update db row s).0 ≡ ok tt
      → ((any (has_key row.namespace row.name) s.datasets ≡ true)
          × ((insert_or_update db row s).1 ≡ record s {
            datasets = update (has_key row.namespace row.name) (refreshed row) s.datasets;
          }))
        ⊎ ((any (has_key row.namespace row.name) s.datasets ≡ false)
            × ((insert_or_update db row s).1 ≡ record s { datasets = s.datasets ++ row ∷ [] }))
  unfolding insert_or_update
  insert_or_update-stored known h = ground arith

module _ (uuids : UuidCodec) (serde : Serde) (u : Uuid) (row : DatasetRow) (t : SourceType)
    (v : Value) (id : uuids.parse_str row.id ≡ some u) (typed : row.source_type ≡ display t)
    (described : row.metadata_json ≡ some (serde.to_string v)) where
  read_row :
      row_to_dataset uuids serde row
      ≡ ok (record {
        id = u;
        name = row.name;
        namespace = row.namespace;
        source_type = t;
        coordinator_id = row.coordinator_id;
        executor_endpoint = row.executor_endpoint;
        schema_ipc = row.arrow_schema_ipc;
        metadata = v;
      })
  read_row =
      rw (id, typed, (try_from_iff (display t) t).1 refl, described, serde.from_str-to_string v)
        refl

module _ (uuids : UuidCodec) (serde : Serde) (db : Setup) (now : ℕ) (coordinator_id : Text)
    (u : Uuid) (name namespace : Text) (t : SourceType) (ignored : Text) (ipc : List ℕ) (v : Value)
    (s : CatalogStore) (c : CoordinatorRow) where
  abbrev row : DatasetRow
  row = record {
    id = uuids.to_string u;
    name = name;
    namespace = namespace;
    source_type = display t;
    coordinator_id = coordinator_id;
    executor_endpoint = endpoint_of coordinator_id s.coordinators;
    arrow_schema_ipc = ipc;
    metadata_json = some (serde.to_string v);
    registered_at = now;
    last_seen_at = now;
    is_active = true;
  }

  abbrev pub dataset : Uuid → DatasetInfo
  dataset id = record {
    id = id;
    name = name;
    namespace = namespace;
    source_type = t;
    coordinator_id = coordinator_id;
    executor_endpoint = c.executor_endpoint;
    schema_ipc = ipc;
    metadata = v;
  }

  abbrev pub upserted : Result DbError (Unit {0}) × CatalogStore
  upserted =
      upsert_dataset db now coordinator_id (uuids.to_string u) name namespace (display t) ignored
        ipc (some (serde.to_string v)) s

  abbrev keyed : DatasetRow → Bool
  keyed = has_key namespace name

  abbrev wanted : DatasetRow → Bool
  wanted d = keyed d && is_shown s.coordinators d

  module _ (known : find (is_coordinator coordinator_id) s.coordinators ≡ some c)
      (alive : c.is_alive ≡ true) where
    live : is_live s.coordinators coordinator_id ≡ true
    live = rw (is_live, known) alive

    endpoint : endpoint_of coordinator_id s.coordinators ≡ c.executor_endpoint
    endpoint = rw (endpoint_of, known) refl

    narrows : (d : DatasetRow) → keyed d ≡ false → wanted d ≡ false
    narrows d h = rw h refl

    wanted-refreshed : (d : DatasetRow) → keyed d ≡ true → wanted (refreshed row d) ≡ true
    wanted-refreshed d h = ground (arith, h, live)

    wanted-row : wanted row ≡ true
    wanted-row = ground (arith, text_eq_refl namespace, text_eq_refl name, live)

    stored_as :
        (r : DatasetRow) (s' : CatalogStore) (w : Uuid)
        → s'.coordinators ≡ s.coordinators
        → find wanted s'.datasets ≡ some r
        → row_to_dataset uuids serde r ≡ ok (dataset w)
        → get_dataset uuids serde namespace name s' ≡ ok (some (dataset w))
    unfolding get_dataset
    stored_as r s' w same found read = rw (same, found, read) refl

    -- After a successful registration by a live coordinator, the dataset is found under its name,
    -- with what was registered and the coordinator's endpoint. Its identifier is the given one, or
    -- that of the row that had the name before, which is assumed to be readable.
    pub upsert_dataset-get :
        ((old : DatasetRow)
          → find keyed s.datasets ≡ some old
          → (w : Uuid) × (uuids.parse_str old.id ≡ some w))
        → upserted.0 ≡ ok tt
        → (w : Uuid) × (get_dataset uuids serde namespace name upserted.1 ≡ ok (some (dataset w)))
          × (((find keyed s.datasets ≡ none) × (w ≡ u))
              ⊎ ((old : DatasetRow) × (find keyed s.datasets ≡ some old)
                  × (uuids.parse_str old.id ≡ some w)))
    unfolding upsert_dataset
    upsert_dataset-get readable h =
        elim (insert_or_update-stored db row s
          (any_of_find (is_coordinator coordinator_id) (λ x. true) s.coordinators c known) h) [
            | inl (taken, e) ↦
                let (old, found) = find_of_any keyed keyed s.datasets taken in
                let (w, read) = readable old found in
                let (_, key) = mem_of_find keyed s.datasets old found in
                let ns_is : old.namespace ≡ namespace =
                  ground (arith, key, text_eq_iff old.namespace namespace) in
                let name_is : old.name ≡ name = ground (arith, key, text_eq_iff old.name name) in
                (
                  w,
                  rw e (
                      stored_as (refreshed row old) _ w refl
                        (find-update keyed wanted narrows (refreshed row) s.datasets old
                          wanted-refreshed found)
                        (read_row uuids serde w (refreshed row old) t v read refl refl ∙ (λ i.
                          ok (record (dataset w) {
                            name = name_is i;
                            namespace = ns_is i;
                            executor_endpoint = endpoint i;
                          })))),
                  inr (old, found, read),
                )
            | inr (free, e) ↦ (
              u,
              rw e (
                  stored_as row _ u refl
                    (find-append_new keyed wanted narrows s.datasets row free wanted-row)
                    (read_row uuids serde u row t v (uuids.parse_str-to_string u) refl refl
                      ∙ (λ i. ok (record (dataset u) { executor_endpoint = endpoint i })))),
              inl (none_of_free keyed keyed s.datasets free, refl),
            )
          ]
