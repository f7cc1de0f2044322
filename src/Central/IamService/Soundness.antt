-- ===== src/Central/IamService/Soundness.antt =====
-- The engine's snapshot is what the store lists, whatever requests are served.
use elan.Common.{◌≡◌, refl, sym, ap, ◌∙◌, subst, List, none, Text, Result, ok}
use elan.Common.External.{Uuid, UuidCodec}
use elan.Iam.Types.{Policy}
use elan.Central.Database.{DbError}
use elan.Central.IamStore
use elan.Central.IamStore.{IamStore, SubjectRow, PolicyRow}
use elan.Central.IamStore.Tables.{IsSound, filter-IsSound}
use elan.Central.IamStore.Listing.{listing, list_policies-listing, listing_total}
use elan.Central.IamStore.Subjects.{IsSettled, get_or_create_subject-IsSettled}
use elan.Central.IamService.{IamSvc, reloaded, reload_engine, delete_policy, create_subject}

module _ (uuids : UuidCodec) where
  -- The tables are sound, and the engine holds the policies that the store lists.
  pub record IsSynced (svc : IamSvc) : Type 0 where
    pub tables : IsSound uuids svc.store.subjects svc.store.policies
    pub synced : IamStore.list_policies uuids none svc.store ≡ ok svc.engine

  abbrev pub with_store : IamSvc → IamStore → IamSvc
  with_store svc store = record svc { store = store }

  module _ (svc : IamSvc) (h : IsSynced svc) where
    pub settled-IsSynced :
        (subject_type name : Text) (r : Result DbError Text) (store : IamStore)
        → IsSettled uuids subject_type name svc.store (r, store)
        → IsSynced (with_store svc store)
    settled-IsSynced subject_type name r store settled = record {
      tables = subst (IsSound uuids store.subjects) (sym settled.policies_kept) settled.sound;
      synced =
          list_policies-listing uuids store
          ∙ ap (listing uuids store.subjects) settled.policies_kept
          ∙ settled.listing_kept
          ∙ sym (list_policies-listing uuids svc.store)
          ∙ h.synced;
    }

  module _ (db_text : DbError → Text) where
    -- Over sound tables the reload succeeds, and the snapshot becomes the listed policies.
    pub reload_engine_lem :
        (svc : IamSvc)
        → IsSound uuids svc.store.subjects svc.store.policies
        → (ps : List Policy) × (reload_engine uuids db_text svc
            ≡ (ok tt, record svc { engine = ps }))
          × IsSynced (record svc { engine = ps })
    unfolding reload_engine
    reload_engine_lem svc sound =
        let (ps, listed) = listing_total uuids sound in
        let e = list_policies-listing uuids svc.store ∙ listed in
        (ps, rw (e, reloaded) refl, record { tables = sound; synced = e })

    module _ (svc : IamSvc) (h : IsSynced svc) where
      abbrev pub settled_subject : Uuid → Text → Text → Result DbError Text × IamStore
      settled_subject u subject_type name =
          IamStore.get_or_create_subject uuids u subject_type name svc.store

      pub create_subject-IsSynced :
          (u : Uuid) (subject_type name : Text)
          → IsSynced (create_subject uuids db_text u subject_type name svc).1
      unfolding create_subject
      create_subject-IsSynced u subject_type name =
          settled-IsSynced svc h subject_type name (settled_subject u subject_type name).0
            (settled_subject u subject_type name).1
            (get_or_create_subject-IsSettled uuids subject_type name svc.store h.tables u)

      pub delete_policy-IsSynced :
          (policy_id : Text) → IsSynced (delete_policy uuids db_text policy_id svc).1
      unfolding delete_policy IamStore.delete_policy
      delete_policy-IsSynced policy_id =
          let deleted = (IamStore.delete_policy policy_id svc.store).1 in
          let (ps, e, synced) =
            reload_engine_lem (with_store svc deleted) (filter-IsSound uuids h.tables _) in
          rw e synced
