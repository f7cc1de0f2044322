-- ===== src/Central/IamService/Serving.antt =====
-- The service over a sequence of requests, from the database that the migrations set up
-- (migrations/0005_iam_defaults.sql; the bootstrap of the engine is in crates/elan-central/src/main.rs).
use mathlib.Core.List.Memᴰ
use elan.Common.{
  ◌≡◌, refl, sym, ap, ◌∙◌, subst, ◌++◌, [], ◌∷◌, List, Memᴰ, ◌&&◌, none, some, Text, codes, inl,
  inr, any, find, Result, ok, ◌>>=◌, Bool-cases, Result-cases, text_eq,
}
use elan.Common.External.{Uuid, UuidCodec}
use elan.Common.Signed.{pos}
use elan.Domain.Proto.{PolicyProto}
use elan.Central.Database.{DbError}
use elan.Central.IamStore
use elan.Central.IamStore.{IamStore, SubjectRow, PolicyRow, MemberRow, has_id}
use elan.Central.IamStore.Tables.{IsSound}
use elan.Central.IamStore.Listing.{list_policies-listing, listing_total}
use elan.Central.IamStore.Subjects.{get_or_create_subject-IsSettled}
use elan.Central.IamService
use elan.Central.IamService.{IamSvc}
use elan.Central.IamService.Creation.{create_policy-IsSynced}
use elan.Central.IamService.Soundness.{
  IsSynced, with_store, settled-IsSynced, delete_policy-IsSynced, create_subject-IsSynced,
}

-- The requests that write; `Uuid::new_v4` gives the identifiers.
pub data Request : Type 0 where
  create_policy : Uuid → Uuid → PolicyProto → Request
  delete_policy : Text → Request
  create_subject : Uuid → Text → Text → Request
  add_group_member : Uuid → Uuid → Text → Text → Request

module _ (uuids : UuidCodec) (db_text : DbError → Text) where
  unfoldable pub serve : Request → IamSvc → IamSvc
  serve (Request.create_policy u v p) svc = (IamService.create_policy uuids db_text u v p svc).1
  serve (Request.delete_policy policy_id) svc =
      (IamService.delete_policy uuids db_text policy_id svc).1
  serve (Request.create_subject u subject_type name) svc =
      (IamService.create_subject uuids db_text u subject_type name svc).1
  serve (Request.add_group_member u v group_name user_name) svc =
      (IamService.add_group_member uuids db_text u v group_name user_name svc).1

  unfoldable pub serve_all : List Request → IamSvc → IamSvc
  serve_all [] svc = svc
  serve_all (q ∷ qs) svc = serve_all qs (serve q svc)

  module _ (svc : IamSvc) (h : IsSynced uuids svc) where
    settle :
        (u : Uuid) (subject_type name : Text)
        → IsSynced uuids (record svc {
          store = (IamStore.get_or_create_subject uuids u subject_type name svc.store).1;
        })
    settle u subject_type name =
        settled-IsSynced uuids svc h subject_type name
          (IamStore.get_or_create_subject uuids u subject_type name svc.store).0
          (IamStore.get_or_create_subject uuids u subject_type name svc.store).1
          (get_or_create_subject-IsSettled uuids subject_type name svc.store h.tables u)

    members-IsSynced :
        (members : List MemberRow)
        → IsSynced uuids (record svc { store = record (svc.store) { members = members } })
    members-IsSynced members = record {
      tables = h.tables;
      synced =
          list_policies-listing uuids (record (svc.store) { members = members })
          ∙ sym (list_policies-listing uuids svc.store)
          ∙ h.synced;
    }

    insert_member-IsSynced :
        (row : MemberRow)
        → IsSynced uuids (record svc { store = (IamStore.insert_member row svc.store).1 })
    unfolding IamStore.insert_member
    insert_member-IsSynced row =
        elim (Bool-cases (
          any (λ (m : MemberRow). text_eq m.group_id row.group_id && text_eq m.user_id row.user_id)
            svc.store.members)) [
              | inl known ↦ rw known h
              | inr new ↦ rw new (members-IsSynced (svc.store.members ++ row ∷ []))
            ]

  add_group_member-IsSynced :
      (svc : IamSvc)
      → IsSynced uuids svc
      → (u v : Uuid) (group_name user_name : Text)
      → IsSynced uuids (IamService.add_group_member uuids db_text u v group_name user_name svc).1
  unfolding IamService.add_group_member IamStore.add_group_member
  add_group_member-IsSynced svc h u v group_name user_name =
      let out = IamStore.get_or_create_subject uuids u (codes "group") group_name svc.store in
      let next = IamStore.get_or_create_subject uuids v (codes "user") user_name out.1 in
      elim (Result-cases out.0) [
        | inr (x, e) ↦ rw e (settle svc h u (codes "group") group_name)
        | inl (group_id, e) ↦ elim (Result-cases next.0) [
          | inr (x, e') ↦
              rw (e, e')
                (settle (with_store uuids svc out.1) (settle svc h u (codes "group") group_name) v
                  (codes "user") user_name)
          | inl (user_id, e') ↦
              rw (e, e')
                (insert_member-IsSynced (with_store uuids svc next.1)
                  (settle (with_store uuids svc out.1) (settle svc h u (codes "group") group_name) v
                    (codes "user") user_name)
                  (record { group_id = group_id; user_id = user_id }))
        ]
      ]

  serve-IsSynced : (q : Request) (svc : IamSvc) → IsSynced uuids svc → IsSynced uuids (serve q svc)
  unfolding serve
  serve-IsSynced (Request.create_policy u v p) svc h =
      create_policy-IsSynced uuids db_text svc h u v p
  serve-IsSynced (Request.delete_policy policy_id) svc h =
      delete_policy-IsSynced uuids db_text svc h policy_id
  serve-IsSynced (Request.create_subject u subject_type name) svc h =
      create_subject-IsSynced uuids db_text svc h u subject_type name
  serve-IsSynced (Request.add_group_member u v group_name user_name) svc h =
      add_group_member-IsSynced svc h u v group_name user_name

  pub serve_all-IsSynced :
      (qs : List Request) (svc : IamSvc) → IsSynced uuids svc → IsSynced uuids (serve_all qs svc)
  unfolding serve_all
  serve_all-IsSynced [] svc h = h
  serve_all-IsSynced (q ∷ qs) svc h = serve_all-IsSynced qs (serve q svc) (serve-IsSynced q svc h)

abbrev default_subject_id : Text
default_subject_id = codes "00000000-0000-0000-0000-000000000001"

abbrev pub default_policy_id : Text
default_policy_id = codes "00000000-0000-0000-0000-000000000002"

-- The database after the migrations: any user may SELECT any dataset.
abbrev pub migrated : IamStore
migrated = record {
  subjects = record { id = default_subject_id; subject_type = codes "user"; name = codes "*" } ∷ [];
  members = [];
  policies =
      record {
        id = default_policy_id;
        subject_id = default_subject_id;
        resource_pattern = codes "*";
        action = codes "SELECT";
        effect = codes "Allow";
        row_filter = none;
        column_mask_json = none;
        priority = pos 0;
      }
      ∷ [];
  audit_events = [];
}

-- The start of the service: the engine is loaded from the store, or the program ends.
unfoldable pub bootstrap : UuidCodec → IamStore → Result DbError IamSvc
bootstrap uuids store = IamStore.list_policies uuids none store >>= λ policies.
    ok (record { store = store; engine = policies })

module _ (uuids : UuidCodec) (db_text : DbError → Text) (u : Uuid)
    (readable : uuids.parse_str default_policy_id ≡ some u) where
  migrated-IsSound : IsSound uuids migrated.subjects migrated.policies
  migrated-IsSound = record {
    keyed = λ r m.
        subst (λ (w : SubjectRow). find (has_id w.id) migrated.subjects ≡ some w)
          (sym (Memᴰ.eq_of_singleton m)) refl;
    linked = λ p m. (
      record { id = default_subject_id; subject_type = codes "user"; name = codes "*" },
      Memᴰ.head refl,
      ap (λ (w : PolicyRow). w.subject_id) (sym (Memᴰ.eq_of_singleton m)),
    );
    readable = λ p m.
        (u, ap (λ (w : PolicyRow). uuids.parse_str w.id) (Memᴰ.eq_of_singleton m) ∙ readable);
  }

  -- Started on the migrated database, whose default identifier can be read, the service comes up,
  -- and after any sequence of writing requests, failed ones included, the engine decides on exactly
  -- the policies that the store lists.
  pub served-synced :
      (qs : List Request)
      → (svc : IamSvc) × (bootstrap uuids migrated ≡ ok svc)
        × (IamStore.list_policies uuids none (serve_all uuids db_text qs svc).store
            ≡ ok (serve_all uuids db_text qs svc).engine)
  unfolding bootstrap
  served-synced qs =
      let (ps, listed) = listing_total uuids migrated-IsSound in
      let e = list_policies-listing uuids migrated ∙ listed in
      let svc : IamSvc = record { store = migrated; engine = ps } in
      (
        svc,
        rw e refl,
        (serve_all-IsSynced uuids db_text qs svc
            (record { tables = migrated-IsSound; synced = e })).synced,
      )
