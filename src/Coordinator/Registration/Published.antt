-- ===== src/Coordinator/Registration/Published.antt =====
-- A coordinator that registers with elan-central: what the catalog shows of its datasets.
use elan.Common.{
  ℕ, ◌+◌, ◌≡◌, refl, sym, ap, ◌∙◌, subst, [], ◌∷◌, List, Bool, true, false, ◌&&◌, none, some, Text,
  find, All, Result, ok, err, map_err, text_eq,
}
use elan.Common.External.{Uuid, UuidCodec, Serde}
use elan.Common.Exec.{Exec, lift, >>=-ran}
use elan.Common.Membership.{mem_of_find}
use elan.Domain.Catalog.{DatasetInfo}
use elan.Domain.Errors.{Status}
use elan.Domain.Proto.{DatasetRegistration}
use elan.Central.Database.{DbError}
use elan.Central.CatalogStore.{
  CatalogStore, CoordinatorRow, Setup, is_coordinator, get_dataset, upsert_coordinator,
}
use elan.Central.CatalogStore.Writes.{any_of_find}
use elan.Central.CatalogStore.Others.{
  AreReadable, coordinators_kept, get_dataset_other, readable_kept,
}
use elan.Central.CoordinatorService
use elan.Central.CoordinatorService.Registration.{IsPublished, registered-IsPublished}
use elan.Coordinator.Config
use elan.Coordinator.Config.{DatasetConfig, CoordinatorConfig}
use elan.Coordinator.Dataset.{Probe, to_registration}
use elan.Coordinator.Registration.Stored.{
  row_of, register_dataset-stored, registered_key, coordinator_known,
}
use elan.Coordinator.Registration.{CoordinatorClient, register_all, register}

-- A call of the service, as the client sees its error.
abbrev pub as_called :
    {A : Type 0} → (Status → Text) → Exec Status CatalogStore A → Exec Text CatalogStore A
as_called status_text m s = let (r, t) = m s in (map_err status_text r, t)

-- The client of the service of elan-central, at a fixed clock.
abbrev pub central_client :
    (Status → Text) → (DbError → Text) → Setup → ℕ → CoordinatorClient CatalogStore
central_client status_text db_text db now = record {
  register = λ req. as_called status_text (CoordinatorService.register db_text now req);
  register_dataset =
      λ reg. as_called status_text (CoordinatorService.register_dataset db_text db now reg);
}

abbrev pub same_key : DatasetConfig → DatasetConfig → Bool
same_key a b =
    text_eq (Config.namespace a) (Config.namespace b) && text_eq (Config.name a) (Config.name b)

-- No two datasets of a configuration share their namespace and name.
abbrev pub AreDistinct : List DatasetConfig → Type 0
AreDistinct [] = Unit
AreDistinct (cfg ∷ cfgs) = All (λ other. same_key other cfg ≡ false) cfgs × AreDistinct cfgs

map_err-ok :
    {A : Type 0} (status_text : Status → Text) (r : Result Status A) {a : A}
    → map_err status_text r ≡ ok a
    → r ≡ ok a
map_err-ok status_text (ok x) h = let same : x ≡ _ = cc in ap ok same
map_err-ok status_text (err e) h = cc

module _ (uuids : UuidCodec) (serde : Serde) (probe : Probe) (status_text : Status → Text)
    (db_text : DbError → Text) (db : Setup) (now : ℕ) (new_v4 : ℕ → Uuid)
    (never_empty : serde.from_str [] ≡ none) (id endpoint : Text) where
  -- The coordinator is registered and alive, with its endpoint, and identifiers can be read.
  pub record IsReady (s : CatalogStore) : Type 0 where
    pub row : CoordinatorRow
    pub known : find (is_coordinator id) s.coordinators ≡ some row
    pub alive : row.is_alive ≡ true
    pub advertised : row.executor_endpoint ≡ endpoint
    pub readable : AreReadable uuids s.datasets

  abbrev pub Shown : CatalogStore → DatasetConfig → Type 0
  Shown s cfg =
      (d : DatasetInfo) × (get_dataset uuids serde (Config.namespace cfg) (Config.name cfg) s
        ≡ ok (some d))
      × IsPublished probe cfg id endpoint d

  abbrev Kept : DatasetConfig → CatalogStore → CatalogStore → Type 0
  Kept cfg s t =
      get_dataset uuids serde (Config.namespace cfg) (Config.name cfg) t
      ≡ get_dataset uuids serde (Config.namespace cfg) (Config.name cfg) s

  -- What one registered dataset leads to.
  registered_one :
      (u : Uuid) (cfg : DatasetConfig) (reg : DatasetRegistration) (s : CatalogStore) (a : Bool)
      → to_registration probe uuids serde u cfg id ≡ ok reg
      → IsReady s
      → (CoordinatorService.register_dataset db_text db now reg s).0 ≡ ok a
      → IsReady (CoordinatorService.register_dataset db_text db now reg s).1
        × Shown (CoordinatorService.register_dataset db_text db now reg s).1 cfg
        × ((other : DatasetConfig)
            → same_key cfg other ≡ false
            → Kept other s (CoordinatorService.register_dataset db_text db now reg s).1)
  registered_one u cfg reg s a made ready done =
      let (is_true, stored, state) = register_dataset-stored db_text db now reg s a done in
      let (owner, named, spaced, read) = registered_key uuids serde probe u cfg id reg made in
      let known : find (is_coordinator reg.coordinator_id) s.coordinators ≡ some ready.row =
        rw owner ready.known in
      let present =
        any_of_find (is_coordinator reg.coordinator_id) (λ x. true) s.coordinators ready.row
          known in
      let row = row_of now reg s in
      let shown =
        registered-IsPublished uuids serde probe db_text db now u cfg id s ready.row reg never_empty
          made ready.known ready.alive
          (λ old found. ready.readable old (mem_of_find _ s.datasets old found).0)
          (done ∙ ap ok is_true) in
      (
        record {
          row = ready.row;
          known =
              ap (λ (t : CatalogStore). find (is_coordinator id) t.coordinators) state
              ∙ ap (find (is_coordinator id))
                  (coordinators_kept uuids serde db row s present stored)
              ∙ ready.known;
          alive = ready.alive;
          advertised = ready.advertised;
          readable =
              subst (λ (t : CatalogStore). AreReadable uuids t.datasets) (sym state)
                (readable_kept uuids serde db row s present stored u read ready.readable);
        },
        (
          shown.0,
          shown.1,
          subst (λ e. IsPublished probe cfg id e shown.0) ready.advertised shown.2,
        ),
        λ other differ.
            ap (get_dataset uuids serde (Config.namespace other) (Config.name other)) state
            ∙ get_dataset_other uuids serde db row s present stored (Config.namespace other)
                (Config.name other) (rw (named, spaced) differ),
      )

  abbrev all : ℕ → List DatasetConfig → Exec Text CatalogStore (Unit {0})
  all n cfgs =
      register_all (central_client status_text db_text db now) probe uuids serde new_v4 n id cfgs

  registered_all :
      (n : ℕ) (cfgs : List DatasetConfig) (s : CatalogStore)
      → AreDistinct cfgs
      → IsReady s
      → (all n cfgs s).0 ≡ ok tt
      → All (Shown (all n cfgs s).1) cfgs
        × ((other : DatasetConfig)
            → All (λ cfg. same_key cfg other ≡ false) cfgs
            → Kept other s (all n cfgs s).1)
  unfolding register_all
  registered_all n [] s distinct ready h = (tt, λ other differ. refl)
  registered_all n (cfg ∷ cfgs) s (apart, distinct) ready h =
      let (reg, made, e) =
        >>=-ran (lift (to_registration probe uuids serde (new_v4 n) cfg id)) _ s h in
      let (a, called, e') =
        >>=-ran ((central_client status_text db_text db now).register_dataset reg) _ s
          (ap (λ o. o.0) (sym e) ∙ h) in
      let s1 = (CoordinatorService.register_dataset db_text db now reg s).1 in
      let ran : all n (cfg ∷ cfgs) s ≡ all (n + 1) cfgs s1 = e ∙ e' in
      let (ready1, shown, others) =
        registered_one (new_v4 n) cfg reg s a made ready (map_err-ok status_text _ called) in
      let (rest, kept) =
        registered_all (n + 1) cfgs s1 distinct ready1 (ap (λ o. o.0) (sym ran) ∙ h) in
      subst
        (λ (o : Result Text (Unit {0}) × CatalogStore).
          All (Shown o.1) (cfg ∷ cfgs)
          × ((other : DatasetConfig)
              → All (λ c. same_key c other ≡ false) (cfg ∷ cfgs)
              → Kept other s o.1))
        (sym ran)
        (
          ((shown.0, kept cfg apart ∙ shown.1, shown.2), rest),
          λ other differ. kept other differ.1 ∙ others other differ.0,
        )

module _ (uuids : UuidCodec) (serde : Serde) (probe : Probe) (status_text : Status → Text)
    (db_text : DbError → Text) (db : Setup) (now : ℕ) (new_v4 : ℕ → Uuid)
    (never_empty : serde.from_str [] ≡ none) (cfg : CoordinatorConfig) (s : CatalogStore) where
  abbrev pub registered : Result Text (Unit {0}) × CatalogStore
  registered = register (central_client status_text db_text db now) probe uuids serde new_v4 cfg s

  -- A coordinator that registers without an error is shown with all of its datasets: the catalog
  -- finds each of them under its namespace and name, with the described source and the endpoint of
  -- the configuration, if no two of them share these names, the identifiers stored before can be
  -- read, and no JSON value is read from an empty text.
  pub register-IsPublished :
      AreReadable uuids s.datasets
      → AreDistinct cfg.datasets
      → registered.0 ≡ ok tt
      → All
          (λ dataset.
            (d : DatasetInfo) × (get_dataset uuids serde
                (Config.namespace dataset)
                (Config.name dataset)
                registered.1
              ≡ ok (some d))
            × IsPublished probe dataset cfg.coordinator.id cfg.executor_endpoint d)
          cfg.datasets
  unfolding register CoordinatorService.register upsert_coordinator
  register-IsPublished readable distinct done =
      let id = cfg.coordinator.id in
      let endpoint = cfg.executor_endpoint in
      let (row, known, alive, advertised) =
        coordinator_known now id cfg.coordinator.environment cfg.coordinator.hostname endpoint s in
      let (shown, _) =
        registered_all uuids serde probe status_text db_text db now new_v4 never_empty id endpoint 0
          cfg.datasets
          (upsert_coordinator now id cfg.coordinator.environment cfg.coordinator.hostname endpoint
            s).1
          distinct
          (record {
            row = row;
            known = known;
            alive = alive;
            advertised = advertised;
            readable = readable;
          })
          done in
      shown
