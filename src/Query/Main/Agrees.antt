-- ===== src/Query/Main/Agrees.antt =====
-- What elan-query offers once it is started against elan-central.
use elan.Common.{
  ℕ, ◌≡◌, ◌↔◌, refl, sym, ap, ◌∙◌, subst, List, Memᴰ, true, Option, none, Text, codes, ok, filter,
  [],
}
use elan.Common.External.{Uuid, UuidCodec, Serde}
use elan.Domain.Catalog.{DatasetInfo}
use elan.Iam.Types.{Policy, Subject, ResourceId, is_allowed}
use elan.Iam.Engine.{check, snapshot_engine}
use elan.Iam.CatalogFilter.{is_visible}
use elan.Central.Database.{DbError}
use elan.Central.CatalogStore
use elan.Central.CatalogStore.{CatalogStore}
use elan.Central.CatalogService
use elan.Central.IamService
use elan.Central.IamService.{IamSvc}
use elan.Central.IamService.Soundness.{IsSynced}
use elan.Query.Catalog.Provider.{TableError}
use elan.Query.Catalog.Provider.Tables.{IsMap, names}
use elan.Query.Catalog.Table.{ArrowIpc}
use elan.Query.Http.{extract_subject, handle_catalog}
use elan.Query.Http.Listing.{listed, handle_catalog_iff}
use elan.Query.Main.{Network, AppState, connected_factory, main, build, sink_of}
use elan.Query.Session.{new_factory, load_datasets, load_iam_policies, refresh}
use elan.Query.Session.Datasets.{under, is_of}
use elan.Query.Session.Distinct.{load_datasets-IsMap}
use elan.Query.Session.Loaded.{load_datasets-list_datasets}
use elan.Query.Session.Policies.{streamed, load_iam_policies-agrees}
use elan.Startup.Args.{config_path}
use elan.Startup.Layers.{ConfigApi, QueryConfig, load_query}

module _ (uuids : UuidCodec) (serde : Serde) (db_text : DbError → Text) where
  -- The network answers the calls of the start as the central services do.
  pub record IsCentral {A : Type 0} (network : Network A) (s : CatalogStore) (svc : IamSvc)
      : Type 0 where
    pub datasets :
        network.list_datasets ≡ streamed (CatalogService.list_datasets uuids serde db_text [] s)
    pub policies : network.list_policies ≡ streamed (IamService.list_policies uuids db_text [] svc)

  -- The state after one round of the background task, which reads the catalog of a store.
  abbrev pub refreshed : {A : Type 0} → CatalogStore → AppState A → AppState A
  refreshed t state = record state {
    session_factory =
        refresh
          (load_datasets uuids serde
            (streamed (CatalogService.list_datasets uuids serde db_text [] t)))
          state.session_factory;
  }

-- What a catalog lists, by what the central services decide.
abbrev pub Offers :
    {A : Type 0}
    → UuidCodec
    → Serde
    → ArrowIpc
    → AppState A
    → List DatasetInfo
    → List Policy
    → Type 0
Offers uuids serde ipc state ds policies =
    (header : Option Text) (ns name : Text)
    → Memᴰ name (listed ns (handle_catalog (build uuids serde ipc state) header)) ↔ (
        Memᴰ name (names (filter (is_of ns) ds))
        × (is_visible (snapshot_engine uuids serde policies) (extract_subject header) ns name
            ≡ true))

module _ {A B : Type 0} (api : ConfigApi B) (error_text : TableError → Text) (uuids : UuidCodec)
    (serde : Serde) (new_v4 : ℕ → Uuid) (ipc : ArrowIpc) (db_text : DbError → Text) where
  offers_lem :
      (state : AppState A) (ds : List DatasetInfo) (policies : List Policy)
      → IsMap state.session_factory.datasets_by_ns
      → ((ns : Text) → under ns state.session_factory.datasets_by_ns ≡ filter (is_of ns) ds)
      → ((s : Subject) (r : ResourceId) (action : Text)
          → is_allowed (check uuids serde state.session_factory.iam_engine s r action)
            ≡ is_allowed (check uuids serde policies s r action))
      → Offers uuids serde ipc state ds policies
  unfolding build is_visible snapshot_engine
  offers_lem state ds policies distinct held agree header ns name =
      let (there, back) =
        handle_catalog_iff uuids serde ipc state.session_factory (build uuids serde ipc state)
          header ns name distinct refl in
      let decided =
        agree (extract_subject header) (record { namespace = ns; name = name }) (codes "SELECT") in
      (
        λ m.
            let (here, visible) = there m in
            (subst (λ l. Memᴰ name (names l)) (held ns) here, sym decided ∙ visible),
        λ (here, visible).
            back (subst (λ l. Memᴰ name (names l)) (sym (held ns)) here, decided ∙ visible),
      )

  -- Started against a central service that can be reached, whose catalog can be listed, and whose
  -- engine is in step with its store, elan-query comes to serve. Its catalog then lists under a
  -- namespace exactly the datasets that the central catalog lists there and that the engine of the
  -- central service lets the user select from. After a refresh from a later catalog, which can be
  -- listed too, it is the datasets of that one, but still the decisions of the engine at the start.
  pub main-agrees :
      (network : Network A) (s t : CatalogStore) (svc : IamSvc) (ds later : List DatasetInfo)
      (args : List Text) (cfg : QueryConfig) (listener : A)
      → load_query api (config_path args) ≡ ok cfg
      → network.connect cfg.central_endpoint ≡ ok tt
      → network.bind cfg.http_addr ≡ ok listener
      → IsCentral uuids serde db_text network s svc
      → CatalogStore.list_datasets uuids serde none s ≡ ok ds
      → CatalogStore.list_datasets uuids serde none t ≡ ok later
      → IsSynced uuids svc
      → (state : AppState A) × (main api network error_text uuids serde new_v4 args ≡ ok state)
        × Offers uuids serde ipc state ds svc.engine
        × Offers uuids serde ipc (refreshed uuids serde db_text t state) later svc.engine
  unfolding main connected_factory new_factory refresh
  main-agrees network s t svc ds later args cfg listener loaded opened bound central listing
        listing_later synced =
      let (by_ns, read, held) = load_datasets-list_datasets uuids serde db_text s ds listing in
      let (by_ns', read_later, held_later) =
        load_datasets-list_datasets uuids serde db_text t later listing_later in
      let (ps, kept, agree) = load_iam_policies-agrees uuids db_text new_v4 svc synced in
      let read' : load_datasets uuids serde network.list_datasets ≡ ok by_ns =
        ap (load_datasets uuids serde) central.datasets ∙ read in
      let kept' : load_iam_policies uuids new_v4 network.list_policies ≡ ok ps =
        ap (load_iam_policies uuids new_v4) central.policies ∙ kept in
      let state : AppState A = record {
        session_factory = record { iam_engine = ps; datasets_by_ns = by_ns };
        audit = sink_of cfg.central_endpoint (network.connect_sink cfg.central_endpoint);
        instance_name = cfg.instance_name;
        listener = listener;
      } in
      let state' : AppState A = record state {
        session_factory = record { iam_engine = ps; datasets_by_ns = by_ns' };
      } in
      let after : state' ≡ refreshed uuids serde db_text t state = rw read_later refl in
      let distinct = load_datasets-IsMap uuids serde network.list_datasets by_ns read' in
      let distinct' = load_datasets-IsMap uuids serde _ by_ns' read_later in
      (
        state,
        rw (loaded, opened, read', kept', bound) refl,
        offers_lem state ds svc.engine distinct held (agree serde),
        subst (λ z. Offers uuids serde ipc z later svc.engine) after
            (offers_lem state' later svc.engine distinct' held_later (agree serde)),
      )
