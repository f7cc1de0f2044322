-- ===== src/Central/IamService/Deletion.antt =====
-- The deletion of a policy: what the engine decides on afterwards.
use elan.Common.{
  ◌≡◌, ◌≢◌, refl, sym, ◌∙◌, subst, Memᴰ, true, not, some, Text, ◌↔◌, ok, arith, text_eq,
  text_eq_iff,
}
use elan.Common.External.{Uuid, UuidCodec}
use elan.Common.Membership.{mem_of_filter, mem-filter}
use elan.Iam.Types.{Policy}
use elan.Central.Database.{DbError}
use elan.Central.IamStore
use elan.Central.IamStore.{policy_of_row, IamStore, SubjectRow, PolicyRow}
use elan.Central.IamStore.Tables.{filter-IsSound}
use elan.Central.IamStore.Listing.{list_policies-listing, mem-listing, mem_of_listing}
use elan.Central.IamService.{IamSvc, on_store, delete_policy}
use elan.Central.IamService.Soundness.{IsSynced, with_store, reload_engine_lem}

module _ (uuids : UuidCodec) where
  -- `q` is the policy of the row `p`, under the subject that the row refers to.
  abbrev pub IsStoredAs : IamStore → Policy → PolicyRow → Type 0
  IsStoredAs store q p =
      (r : SubjectRow) × (u : Uuid) × Memᴰ r store.subjects
      × (r.id ≡ p.subject_id)
      × (uuids.parse_str p.id ≡ some u)
      × (q ≡ policy_of_row u (p, r))

  kept_iff :
      (p : PolicyRow) (policy_id : Text)
      → (not (text_eq p.id policy_id) ≡ true) ↔ (p.id ≢ policy_id)
  kept_iff p policy_id = ground (arith, text_eq_iff p.id policy_id)

  module _ (db_text : DbError → Text) (svc : IamSvc) (h : IsSynced uuids svc) (policy_id : Text)
      (q : Policy) where
    -- On a service whose engine is in step with its store, a deletion succeeds, and from then on
    -- the engine decides on exactly the policies of the stored rows with another identifier.
    pub delete_policy_iff :
        ((delete_policy uuids db_text policy_id svc).0 ≡ ok tt)
        × (Memᴰ q (delete_policy uuids db_text policy_id svc).1.engine ↔ (
            (p : PolicyRow) × Memᴰ p svc.store.policies
            × (p.id ≢ policy_id)
            × IsStoredAs svc.store q p))
    unfolding delete_policy IamStore.delete_policy on_store
    delete_policy_iff =
        let deleted = (IamStore.delete_policy policy_id svc.store).1 in
        let sound = filter-IsSound uuids h.tables _ in
        let (ps, e, synced) =
          reload_engine_lem uuids db_text (with_store uuids svc deleted) sound in
        rw e (
          refl,
          (
            λ m.
                let (p, r, u, mp, mr, same, readable, is_q) =
                  mem_of_listing uuids svc.store.subjects deleted.policies ps q
                    (sym (list_policies-listing uuids deleted) ∙ synced.synced) m in
                let (listed, other) =
                  mem_of_filter (λ (p : PolicyRow). not (text_eq p.id policy_id)) p
                    svc.store.policies mp in
                (p, listed, (kept_iff p policy_id).0 other, (r, u, mr, same, readable, is_q)),
            λ (p, mp, other, (r, u, mr, same, readable, is_q)).
                subst (λ z. Memᴰ z ps) (sym is_q)
                  (mem-listing uuids sound p r u ps
                    (mem-filter (λ (p : PolicyRow). not (text_eq p.id policy_id)) mp
                      ((kept_iff p policy_id).1 other))
                    mr same readable (sym (list_policies-listing uuids deleted) ∙ synced.synced)),
          ),
        )
