-- ===== src/Central/IamService/Grants.antt =====
-- What a created policy does to the decisions of the service.
use elan.Common.{
  ◌≡◌, refl, sym, ap, ◌∙◌, Memᴰ, true, false, none, some, Text, inl, inr, find, ok, arith,
  Bool-cases, text_eq_iff,
}
use elan.Common.External.{Uuid, UuidCodec, Serde}
use elan.Common.Signed.{pos}
use elan.Domain.Proto.{PolicyProto, AccessRequest}
use elan.Iam.Types.{Policy, PolicyEffect, SubjectType, is_allowed}
use elan.Iam.Types.Matching.{Names, Covers, Permits, Concerns}
use elan.Iam.Engine.{check}
use elan.Iam.Engine.Decision.{check_allowed_iff}
use elan.Central.Database.{DbError}
use elan.Central.IamStore.{IamStore, SubjectRow, has_name, subject_type_of, effect_of}
use elan.Central.IamStore.Subjects.{IsSubjectRow}
use elan.Central.IamService.{
  IamSvc, create_policy, check_access, decision_to_proto, subject_of, resource_of,
}
use elan.Central.IamService.Soundness.{IsSynced}
use elan.Central.IamService.Creation.{IsCreated, create_policy-IsCreated, policy_of}
use elan.Common.Membership.{mem_of_find}
use elan.Common.{codes, ◌↔◌}

-- The type of the subject that a new policy is attached to: that of the subject of this name, if
-- there is one, and the requested one if not.
abbrev pub attached_type : IamStore → PolicyProto → SubjectType
attached_type store p = elim (find (has_name p.subject_name) store.subjects) [
  | some r ↦ subject_type_of r.subject_type
  | none ↦ subject_type_of p.subject_type
]

attached_row :
    (uuids : UuidCodec) (store : IamStore) (p : PolicyProto) (r : SubjectRow)
    → IsSubjectRow uuids p.subject_type p.subject_name store r
    → (r.name ≡ p.subject_name) × (subject_type_of r.subject_type ≡ attached_type store p)
attached_row uuids store p r (inl e) =
    let (_, named) = mem_of_find (has_name p.subject_name) store.subjects r e in
    ((text_eq_iff r.name p.subject_name).0 named, rw (attached_type, e) refl)
attached_row uuids store p r (inr (e, same_type, same_name)) =
    (same_name, rw (attached_type, e) (ap subject_type_of same_type))

effect_of_deny : effect_of (codes "Deny") ≡ PolicyEffect.deny
effect_of_deny = refl

effect_of_allow : effect_of (codes "Allow") ≡ PolicyEffect.allow
effect_of_allow = refl

module _ (uuids : UuidCodec) (serde : Serde) (db_text : DbError → Text) (svc svc' : IamSvc)
    (h : IsSynced uuids svc) (u v : Uuid) (p : PolicyProto) (id : Text)
    (created : create_policy uuids db_text u v p svc ≡ (ok id, svc')) (req : AccessRequest) where
  -- The new policy concerns the request, as a policy of the attached subject.
  abbrev pub IsConcerned : Type 0
  IsConcerned =
      Names (attached_type svc.store p) p.subject_name (subject_of req)
      × Covers p.resource_pattern (resource_of req)
      × Permits p.action req.action

  check_access-allowed :
      (check_access uuids serde req svc').allowed
      ≡ is_allowed (check uuids serde svc'.engine (subject_of req) (resource_of req) req.action)
  unfolding check_access decision_to_proto
  check_access-allowed = ground arith

  creation : IsCreated uuids db_text svc h u v p svc'
  creation = create_policy-IsCreated uuids db_text svc h u v p id svc' created

  new_policy : Policy
  new_policy = policy_of uuids db_text svc h u v p creation.subject

  new_policy-Concerns :
      IsConcerned → Concerns (subject_of req) (resource_of req) req.action new_policy
  unfolding new_policy
  new_policy-Concerns (named, covered, permitted) =
      let (same_name, same_type) =
        attached_row uuids svc.store p creation.subject creation.attached in
      (rw (same_name, same_type) named, covered, permitted)

  decided :
      (is_allowed (check uuids serde svc'.engine (subject_of req) (resource_of req) req.action)
        ≡ true)
      ↔ (((q : Policy) × Memᴰ q svc'.engine
            × Concerns (subject_of req) (resource_of req) req.action q)
          × ((q : Policy)
              → Memᴰ q svc'.engine
              → Concerns (subject_of req) (resource_of req) req.action q
              → q.effect ≡ PolicyEffect.allow))
  decided = check_allowed_iff uuids serde svc'.engine (subject_of req) (resource_of req) req.action

  -- On a service whose engine is in step with its store, a successfully created Deny takes effect
  -- at once: every request that it concerns is refused from the next check on, whatever else is
  -- stored.
  pub create_policy_denies :
      p.effect ≡ pos 1 → IsConcerned → (check_access uuids serde req svc').allowed ≡ false
  unfolding new_policy
  create_policy_denies e c = elim (Bool-cases (check_access uuids serde req svc').allowed) [
    | inr refused ↦ refused
    | inl granted ↦
        let allow =
          (decided.0 (sym check_access-allowed ∙ granted)).1 new_policy creation.added
            (new_policy-Concerns c) in
        let deny : new_policy.effect ≡ PolicyEffect.deny = rw e refl in cc
  ]

  -- On a service whose engine is in step with its store, a successfully created Allow takes effect
  -- at once: every request that it concerns is granted, if none of the policies in force before
  -- that concern the request is a Deny.
  pub create_policy_allows :
      p.effect ≡ pos 0
      → IsConcerned
      → ((q : Policy)
          → Memᴰ q svc.engine
          → Concerns (subject_of req) (resource_of req) req.action q
          → q.effect ≡ PolicyEffect.allow)
      → (check_access uuids serde req svc').allowed ≡ true
  unfolding new_policy
  create_policy_allows e c others =
      let allow : new_policy.effect ≡ PolicyEffect.allow = rw e refl in
      check_access-allowed
      ∙ decided.1 (
        (new_policy, creation.added, new_policy-Concerns c),
        λ q m d. elim (creation.others q m) [
          | inl old ↦ others q old d
          | inr same ↦ ap (λ (z : Policy). z.effect) same ∙ allow
        ],
      )
