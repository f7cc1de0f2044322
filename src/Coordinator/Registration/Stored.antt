-- ===== src/Coordinator/Registration/Stored.antt =====
-- What the registrations of a coordinator and of a dataset write.
use elan.Common.{
  ℕ, ◌≡◌, refl, sym, ap, ◌∙◌, Bool, true, some, Text, inl, inr, find, any, Result, ok, err,
  Bool-cases, Result-cases, text_eq_refl, none_if_empty, >>=-eq-ok,
}
use elan.Common.External.{Uuid, UuidCodec, Serde}
use elan.Domain.Errors.{Status}
use elan.Domain.Proto.{DatasetRegistration}
use elan.Central.Database.{DbError, to_status}
use elan.Central.CatalogStore
use elan.Central.CatalogStore.{
  CatalogStore, CoordinatorRow, DatasetRow, Setup, is_coordinator, has_key, get_dataset,
  upsert_coordinator, update, endpoint_of, insert_or_update,
}
use elan.Central.CatalogStore.Writes.{find_of_any, find-update, find-append_new}
use elan.Central.CoordinatorService
use elan.Coordinator.Config
use elan.Coordinator.Config.{DatasetConfig, CoordinatorConfig}
use elan.Coordinator.Dataset.{Probe, to_registration, infer_schema}

-- The row that a registration is stored as.
abbrev pub row_of : ℕ → DatasetRegistration → CatalogStore → DatasetRow
row_of now reg s = record {
  id = reg.dataset_id;
  name = reg.name;
  namespace = reg.namespace;
  source_type = reg.source_type;
  coordinator_id = reg.coordinator_id;
  executor_endpoint = endpoint_of reg.coordinator_id s.coordinators;
  arrow_schema_ipc = reg.arrow_schema_ipc;
  metadata_json = none_if_empty reg.metadata_json;
  registered_at = now;
  last_seen_at = now;
  is_active = true;
}

pub register_dataset-stored :
    (db_text : DbError → Text) (db : Setup) (now : ℕ) (reg : DatasetRegistration) (s : CatalogStore)
    (a : Bool)
    → (CoordinatorService.register_dataset db_text db now reg s).0 ≡ ok a
    → (a ≡ true)
      × ((insert_or_update db (row_of now reg s) s).0 ≡ ok tt)
      × ((CoordinatorService.register_dataset db_text db now reg s).1
          ≡ (insert_or_update db (row_of now reg s) s).1)
unfolding CoordinatorService.register_dataset CatalogStore.upsert_dataset
register_dataset-stored db_text db now reg s a h =
    elim (Result-cases (insert_or_update db (row_of now reg s) s).0) [
      | inl (done, e) ↦
          let same : ◌≡◌ {A = Result Status Bool} (ok true) (ok a) = rw e at h in (cc, e, rw e refl)
      | inr (x, e) ↦
          let never : ◌≡◌ {A = Result Status Bool} (err (to_status db_text x)) (ok a) = rw e at h in
          cc
    ]

-- The fields by which a registration is found again.
pub registered_key :
    (uuids : UuidCodec) (serde : Serde) (probe : Probe) (u : Uuid) (cfg : DatasetConfig) (id : Text)
    (reg : DatasetRegistration)
    → to_registration probe uuids serde u cfg id ≡ ok reg
    → (reg.coordinator_id ≡ id)
      × (reg.name ≡ Config.name cfg)
      × (reg.namespace ≡ Config.namespace cfg)
      × (uuids.parse_str reg.dataset_id ≡ some u)
unfolding to_registration
registered_key uuids serde probe u cfg id reg made =
    let (ipc, written, e) = >>=-eq-ok (probe.write_schema (infer_schema probe cfg)) _ made in
    let same : ◌≡◌ {A = DatasetRegistration}
        (record {
          coordinator_id = id;
          dataset_id = uuids.to_string u;
          name = Config.name cfg;
          namespace = Config.namespace cfg;
          source_type = Config.source_type cfg;
          arrow_schema_ipc = ipc;
          metadata_json = serde.to_string (Config.metadata_json cfg);
        })
        reg =
      cc in
    (
      ap (λ (r : DatasetRegistration). r.coordinator_id) (sym same),
      ap (λ (r : DatasetRegistration). r.name) (sym same),
      ap (λ (r : DatasetRegistration). r.namespace) (sym same),
      ap (λ (r : DatasetRegistration). uuids.parse_str r.dataset_id) (sym same)
          ∙ uuids.parse_str-to_string u,
    )

pub coordinator_known :
    (now : ℕ) (id environment hostname endpoint : Text) (s : CatalogStore)
    → (row : CoordinatorRow) × (find
          (is_coordinator id)
          (upsert_coordinator now id environment hostname endpoint s).1.coordinators
        ≡ some row)
      × (row.is_alive ≡ true)
      × (row.executor_endpoint ≡ endpoint)
unfolding upsert_coordinator
coordinator_known now id environment hostname endpoint s =
    let fresh : CoordinatorRow = record {
      id = id;
      environment = environment;
      hostname = hostname;
      executor_endpoint = endpoint;
      registered_at = now;
      last_heartbeat_at = now;
      is_alive = true;
    } in
    let renewed : CoordinatorRow → CoordinatorRow =
      λ c. record fresh { id = c.id; registered_at = c.registered_at } in
    let is_it = is_coordinator id in
    elim (Bool-cases (any is_it s.coordinators)) [
      | inl taken ↦
          let (old, found) = find_of_any is_it is_it s.coordinators taken in
          (
            renewed old,
            rw taken (
                find-update is_it is_it (λ y miss. miss) renewed s.coordinators old (λ y hit. hit)
                  found),
            refl,
            refl,
          )
      | inr free ↦ (
        fresh,
        rw free (
            find-append_new is_it is_it (λ y miss. miss) s.coordinators fresh free
              (text_eq_refl id)),
        refl,
        refl,
      )
    ]
