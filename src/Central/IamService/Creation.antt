-- ===== src/Central/IamService/Creation.antt =====
-- The creation of a policy, on each of its three ends.
use mathlib.Core.List.Memᴰ
use elan.Domain.Errors.{Status}
use elan.Common.{
  find, ◌≡◌, refl, sym, ap, ◌∙◌, subst, ◌++◌, [], ◌∷◌, List, Memᴰ, Bool, true, false, some, Text,
  ◌⊎◌, inl, inr, any, Result, ok, err, Bool-cases, Result-cases, none_if_empty, text_eq,
  text_eq_iff,
}
use elan.Common.External.{Uuid, UuidCodec}
use elan.Common.Signed.{is_one}
use elan.Common.Membership.{any_of_mem}
use elan.Iam.Types.{Policy}
use elan.Domain.Proto.{PolicyProto}
use elan.Central.Database.{DbError, to_status, unique_violation}
use elan.Central.IamStore
use elan.Central.IamStore.{is_effect, has_id, policy_of_row, IamStore, SubjectRow, PolicyRow}
use elan.Central.IamStore.Tables.{IsSound, add_policy-IsSound}
use elan.Central.IamStore.Listing.{list_policies-listing, mem-listing, mem_of_listing}
use elan.Central.IamStore.Subjects.{IsSubjectRow, IsSettled, get_or_create_subject-IsSettled}
use elan.Central.IamService.Soundness.{
  IsSynced, with_store, settled-IsSynced, reload_engine_lem, settled_subject,
}
use elan.Central.IamService.{IamSvc, effect_text, create_policy}

err-ne-ok :
    {e : Status} {a : Text} {s t : IamSvc}
    → ◌≡◌ {A = Result Status Text × IamSvc} (err e, s) (ok a, t)
    → ⊥
err-ne-ok h = let failed = ap (λ (o : Result Status Text × IamSvc). o.0) h in cc

module _ (uuids : UuidCodec) (db_text : DbError → Text) (svc : IamSvc) (h : IsSynced uuids svc)
    (u v : Uuid) (p : PolicyProto) where
  abbrev policy_row : Text → PolicyRow
  policy_row subject_id = record {
    id = uuids.to_string v;
    subject_id = subject_id;
    resource_pattern = p.resource_pattern;
    action = p.action;
    effect = effect_text uuids db_text p.effect;
    row_filter = none_if_empty p.row_filter;
    column_mask_json = none_if_empty p.column_mask_json;
    priority = p.priority;
  }

  abbrev out : Result DbError Text × IamStore
  out = settled_subject uuids db_text svc h u p.subject_type p.subject_name

  settled : IsSettled uuids p.subject_type p.subject_name svc.store out
  settled = get_or_create_subject-IsSettled uuids p.subject_type p.subject_name svc.store h.tables u

  kept : IsSynced uuids (with_store uuids svc out.1)
  kept = settled-IsSynced uuids svc h p.subject_type p.subject_name out.0 out.1 settled

  effect_text-is_effect : is_effect (effect_text uuids db_text p.effect) ≡ true
  effect_text-is_effect = elim (Bool-cases (is_one p.effect)) [
    | inl b ↦ rw b refl
    | inr b ↦ rw b refl
  ]

  -- The reference of the new policy to its subject holds.
  refers :
      (subject_id : Text) → out.0 ≡ ok subject_id → any (has_id subject_id) out.1.subjects ≡ true
  refers subject_id e =
      let (r, m, same, _) = settled.subject subject_id e in
      any_of_mem (has_id subject_id) m ((text_eq_iff r.id subject_id).1 same)

  abbrev is_used : Bool
  is_used = any (λ (q : PolicyRow). text_eq q.id (uuids.to_string v)) out.1.policies

  abbrev inserted : Text → IamSvc
  inserted subject_id =
      with_store uuids svc
        (record (out.1) { policies = out.1.policies ++ policy_row subject_id ∷ [] })

  inserted-IsSound :
      (subject_id : Text)
      → out.0 ≡ ok subject_id
      → IsSound uuids out.1.subjects (out.1.policies ++ policy_row subject_id ∷ [])
  inserted-IsSound subject_id e =
      let (r, m, same, _) = settled.subject subject_id e in
      add_policy-IsSound uuids kept.tables (policy_row subject_id) r m same v
        (uuids.parse_str-to_string v)

  -- The three ways in which a creation ends: the policy is stored and the engine reloaded, or a
  -- constraint refuses the subject or the policy and the policies stay as they are.
  pub create_policy_stored :
      (subject_id : Text)
      → out.0 ≡ ok subject_id
      → is_used ≡ false
      → (ps : List Policy) × (create_policy uuids db_text u v p svc
          ≡ (ok (uuids.to_string v), record (inserted subject_id) { engine = ps }))
        × IsSynced uuids (record (inserted subject_id) { engine = ps })
  unfolding create_policy IamStore.create_policy
  create_policy_stored subject_id e free =
      let (ps, reloaded_eq, synced) =
        reload_engine_lem uuids db_text (inserted subject_id) (inserted-IsSound subject_id e) in
      (ps, rw (e, effect_text-is_effect, free, refers subject_id e, reloaded_eq) refl, synced)

  pub create_policy_no_subject :
      (x : DbError)
      → out.0 ≡ err x
      → create_policy uuids db_text u v p svc
        ≡ (err (to_status db_text x), with_store uuids svc out.1)
  unfolding create_policy IamStore.create_policy
  create_policy_no_subject x e = rw e refl

  pub create_policy_used_id :
      (subject_id : Text)
      → out.0 ≡ ok subject_id
      → is_used ≡ true
      → create_policy uuids db_text u v p svc
        ≡ (err (to_status db_text unique_violation), with_store uuids svc out.1)
  unfolding create_policy IamStore.create_policy
  create_policy_used_id subject_id e used = rw (e, effect_text-is_effect, used) refl

  pub create_policy-IsSynced : IsSynced uuids (create_policy uuids db_text u v p svc).1
  create_policy-IsSynced = elim (Result-cases out.0) [
    | inr (x, e) ↦ rw (create_policy_no_subject x e) kept
    | inl (subject_id, e) ↦ elim (Bool-cases is_used) [
      | inl used ↦ rw (create_policy_used_id subject_id e used) kept
      | inr free ↦
          let (ps, stored, synced) = create_policy_stored subject_id e free in rw stored synced
    ]
  ]

  abbrev pub policy_of : SubjectRow → Policy
  policy_of r = policy_of_row v (policy_row r.id, r)

  -- What a successful creation leaves: the engine holds the new policy, under the subject that
  -- was found or created, and otherwise exactly the policies that it held before.
  pub record IsCreated (svc' : IamSvc) : Type 0 where
    pub subject : SubjectRow
    pub attached : IsSubjectRow uuids p.subject_type p.subject_name svc.store subject
    pub added : Memᴰ (policy_of subject) svc'.engine
    pub others : (q : Policy) → Memᴰ q svc'.engine → Memᴰ q svc.engine ⊎ (q ≡ policy_of subject)
    pub remaining : (q : Policy) → Memᴰ q svc.engine → Memᴰ q svc'.engine

  same_subject :
      (w r : SubjectRow) → Memᴰ w out.1.subjects → Memᴰ r out.1.subjects → w.id ≡ r.id → w ≡ r
  same_subject w r mw mr e =
      let found_w = kept.tables.keyed w mw in
      let found_r : find (IamStore.has_id w.id) out.1.subjects ≡ some r =
        subst (λ i. find (IamStore.has_id i) out.1.subjects ≡ some r) (sym e)
          (kept.tables.keyed r mr) in
      cc

  module _ (subject_id : Text) (e : out.0 ≡ ok subject_id) (r : SubjectRow)
      (m : Memᴰ r out.1.subjects) (same : r.id ≡ subject_id) where
    new_or_old :
        (q : Policy) (row : PolicyRow) (w : SubjectRow) (x : Uuid)
        → Memᴰ row (out.1.policies ++ policy_row subject_id ∷ [])
        → Memᴰ w out.1.subjects
        → w.id ≡ row.subject_id
        → uuids.parse_str row.id ≡ some x
        → q ≡ policy_of_row x (row, w)
        → Memᴰ q svc.engine ⊎ (q ≡ policy_of r)
    new_or_old q row w x mrow mw linked readable e' = elim (Memᴰ.append_cases out.1.policies mrow) [
      | inl old ↦ inl (
          subst (λ z. Memᴰ z svc.engine) (sym e')
            (mem-listing uuids kept.tables row w x svc.engine old mw linked readable
              (sym (list_policies-listing uuids out.1) ∙ kept.synced)))
      | inr new ↦
          let is_new : row ≡ policy_row subject_id = Memᴰ.eq_of_singleton new in
          let w_is : w ≡ r =
            same_subject w r mw m
              (linked ∙ ap (λ (z : PolicyRow). z.subject_id) is_new ∙ sym same) in
          let read : uuids.parse_str (uuids.to_string v) ≡ some x =
            ap (λ (z : PolicyRow). uuids.parse_str z.id) (sym is_new) ∙ readable in
          let x_is : x ≡ v = cc (read, uuids.parse_str-to_string v) in
          inr (e' ∙ (λ i. policy_of_row (x_is i) (is_new i, w_is i)))
    ]

  stored-IsCreated :
      (subject_id : Text) (ps : List Policy)
      → out.0 ≡ ok subject_id
      → IsSynced uuids (record (inserted subject_id) { engine = ps })
      → IsCreated (record (inserted subject_id) { engine = ps })
  stored-IsCreated subject_id ps e synced =
      let (r, m, same, attached) = settled.subject subject_id e in
      let rows = out.1.policies ++ policy_row subject_id ∷ [] in
      let listed = sym (list_policies-listing uuids (inserted subject_id).store) ∙ synced.synced in
      record {
        subject = r;
        attached = attached;
        added =
            mem-listing uuids synced.tables (policy_row subject_id) r v ps
              (Memᴰ.append_right out.1.policies (Memᴰ.head refl)) m same
              (uuids.parse_str-to_string v) listed;
        others = λ q mq.
            let (row, w, x, mrow, mw, linked, readable, e') =
              mem_of_listing uuids out.1.subjects rows ps q listed mq in
            new_or_old subject_id e r m same q row w x mrow mw linked readable e';
        remaining = λ q mq.
            let (row, w, x, mrow, mw, linked, readable, e') =
              mem_of_listing uuids out.1.subjects out.1.policies svc.engine q
                (sym (list_policies-listing uuids out.1) ∙ kept.synced) mq in
            subst (λ z. Memᴰ z ps) (sym e')
              (mem-listing uuids synced.tables row w x ps
                (Memᴰ.append_left (policy_row subject_id ∷ []) mrow) mw linked readable listed);
      }

  -- On a service whose engine is in step with its store, a creation that succeeds leaves an engine
  -- that holds the new policy, under the subject that was found or created, and otherwise exactly
  -- the policies that it held before.
  pub create_policy-IsCreated :
      (id : Text) (svc' : IamSvc)
      → create_policy uuids db_text u v p svc ≡ (ok id, svc')
      → IsCreated svc'
  create_policy-IsCreated id svc' created = elim (Result-cases out.0) [
    | inr (x, e) ↦ absurd (err-ne-ok (sym (create_policy_no_subject x e) ∙ created))
    | inl (subject_id, e) ↦ elim (Bool-cases is_used) [
      | inl used ↦ absurd (err-ne-ok (sym (create_policy_used_id subject_id e used) ∙ created))
      | inr free ↦
          let (ps, stored, synced) = create_policy_stored subject_id e free in
          subst IsCreated (ap (λ (o : Result Status Text × IamSvc). o.1) (sym stored ∙ created))
            (stored-IsCreated subject_id ps e synced)
    ]
  ]
