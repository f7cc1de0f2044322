-- ===== src/Query/Session/Policies.antt =====
-- The policies that elan-query loads, against those that elan-central decides on.
use elan.Common.Membership.{mem-map, mem_of_map}
use elan.Common.{
  same_truth, ℕ, ◌+◌, ◌≡◌, refl, ap, ◌∙◌, subst, [], ◌∷◌, List, Memᴰ, Text, ◌↔◌, Result, ok, ◌>>=◌,
  map, none_if_empty, unwrap_or_default,
}
use elan.Common.External.{Uuid, UuidCodec, Serde}
use elan.Domain.Errors.{Status}
use elan.Iam.Types.{Subject, ResourceId, Policy, PolicyEffect, SubjectType, user, group, is_allowed}
use elan.Iam.Types.Matching.{Concerns}
use elan.Iam.Engine.{check}
use elan.Iam.Engine.Decision.{check_allowed_iff}
use elan.Central.Database.{DbError}
use elan.Central.IamService.{
  IamSvc, subject_type_text, effect_number, policy_to_proto, list_policies,
}
use elan.Central.IamService.Soundness.{IsSynced}
use elan.Query.Session.{
  parsed_or, subject_type_of_text, effect_of_number, load_iam_policies, policies_of_stream,
  policy_of_proto,
}

-- What the stream keeps of a policy: an empty filter or mask is read as a missing one.
abbrev pub cleared : Policy → Policy
cleared p = record p {
  row_filter = none_if_empty (unwrap_or_default p.row_filter);
  column_mask_json = none_if_empty (unwrap_or_default p.column_mask_json);
}

subject_type_kept : (t : SubjectType) → subject_type_of_text (subject_type_text t) ≡ t
subject_type_kept user = refl
subject_type_kept group = refl

effect_kept : (e : PolicyEffect) → effect_of_number (effect_number e) ≡ e
effect_kept PolicyEffect.allow = refl
effect_kept PolicyEffect.deny = refl

module _ (uuids : UuidCodec) where
  round_trip :
      (fresh : Uuid) (p : Policy)
      → policy_of_proto uuids fresh (policy_to_proto uuids p) ≡ cleared p
  unfolding policy_to_proto
  round_trip fresh p =
      let id : parsed_or (uuids.parse_str (uuids.to_string p.id)) fresh ≡ p.id =
        rw (uuids.parse_str-to_string p.id) refl in
      λ i. record (cleared p) {
        id = id i;
        subject_type = subject_type_kept p.subject_type i;
        effect = effect_kept p.effect i;
      }

module _ (uuids : UuidCodec) (new_v4 : ℕ → Uuid) where
  stream_total :
      (n : ℕ) (ps : List Policy)
      → policies_of_stream uuids new_v4 n (map ok (map (policy_to_proto uuids) ps))
        ≡ ok (map cleared ps)
  unfolding policies_of_stream
  stream_total n [] = refl
  stream_total n (p ∷ ps) =
      rw (stream_total (n + 1) ps)
        (ap (λ q. ok (q ∷ map cleared ps)) (round_trip uuids (new_v4 n) p))

-- The stream that the service answers with, as the client sees it.
abbrev pub streamed : {A : Type 0} → Result Status (List A) → Result Status (List (Result Status A))
streamed r = r >>= λ items. ok (map ok items)

module _ (uuids : UuidCodec) (serde : Serde) (ps : List Policy) (s : Subject) (r : ResourceId)
    (action : Text) where
  Allowed : List Policy → Type 0
  Allowed qs =
      ((p : Policy) × Memᴰ p qs × Concerns s r action p)
      × ((q : Policy) → Memᴰ q qs → Concerns s r action q → q.effect ≡ PolicyEffect.allow)

  Allowed-cleared : Allowed (map cleared ps) ↔ Allowed ps
  unfolding Allowed
  Allowed-cleared = (
    λ ((q, m, c), h).
        let (p, here, e) = mem_of_map cleared q ps m in
        (
          (p, here, subst (Concerns s r action) e c),
          λ p' m' c'. h (cleared p') (mem-map cleared m') c',
        ),
    λ ((p, m, c), h). (
      (cleared p, mem-map cleared m, c),
      λ q m' c'.
          let (p', here, e) = mem_of_map cleared q ps m' in
          ap (λ (z : Policy). z.effect) e ∙ h p' here (subst (Concerns s r action) e c'),
    ),
  )

  same_decision :
      is_allowed (check uuids serde (map cleared ps) s r action)
      ≡ is_allowed (check uuids serde ps s r action)
  unfolding Allowed
  same_decision =
      let a = check_allowed_iff uuids serde (map cleared ps) s r action in
      let b = check_allowed_iff uuids serde ps s r action in
      same_truth _ _ (λ h. b.1 (Allowed-cleared.0 (a.0 h)), λ h. a.1 (Allowed-cleared.1 (b.0 h)))

module _ (uuids : UuidCodec) (db_text : DbError → Text) (new_v4 : ℕ → Uuid) (svc : IamSvc)
    (h : IsSynced uuids svc) where
  -- The policies that elan-query loads from a service whose engine is in step with its store can be
  -- read, and let through exactly the requests that the service's own engine lets through at that
  -- moment.
  pub load_iam_policies-agrees :
      (ps : List Policy) × (load_iam_policies uuids new_v4
          (streamed (list_policies uuids db_text [] svc))
        ≡ ok ps)
      × ((serde : Serde) (s : Subject) (r : ResourceId) (action : Text)
          → is_allowed (check uuids serde ps s r action)
            ≡ is_allowed (check uuids serde svc.engine s r action))
  unfolding load_iam_policies list_policies
  load_iam_policies-agrees = (
    map cleared svc.engine,
    rw (list_policies, h.synced) (stream_total uuids new_v4 0 svc.engine),
    λ serde s r action. same_decision uuids serde svc.engine s r action,
  )
