-- ===== src/Central/IamStore/Listing.antt =====
-- What `list_policies` lists of sound tables.
use elan.Common.{
  ◌≡◌, refl, sym, ap, ◌∙◌, ◌++◌, [], ◌∷◌, List, Memᴰ, Option, none, some, text_eq_iff, inl, inr,
  filter, filter_map, find, Result, ok, err, collect, Option-cases,
}
use elan.Common.External.{Uuid, UuidCodec}
use elan.Common.Membership.{
  mem_of_filter, mem-filter, find-append_left, mem_of_find, mem_of_filter_map, mem-filter_map,
  filter_map_congr, collect_total, mem-collect, mem_of_collect,
}
use elan.Common.Sorting.{sort_by, mem-sort_by, mem_of_sort_by}
use elan.Iam.Types.{Policy}
use elan.Central.Database.{DbError, decode_error}
use elan.Central.IamStore.Tables.{IsSound, found_subject}
use elan.Central.IamStore.{
  SubjectRow, PolicyRow, IamStore, has_id, with_subject, priority_desc, is_of_subject,
  row_to_policy, policy_of_row, list_policies,
}

with_subject_lem :
    (subjects : List SubjectRow) (p : PolicyRow) (r : SubjectRow)
    → find (has_id p.subject_id) subjects ≡ some r
    → with_subject subjects p ≡ some (p, r)
unfolding with_subject
with_subject_lem subjects p r found = rw (found, with_subject) refl

module _ (uuids : UuidCodec) where
  -- The rows that `list_policies(None)` converts.
  abbrev joined : List SubjectRow → List PolicyRow → List (PolicyRow × SubjectRow)
  joined subjects policies =
      filter (is_of_subject none)
        (sort_by priority_desc (filter_map (with_subject subjects) policies))

  row_to_policy_lem :
      (row : PolicyRow × SubjectRow) (u : Uuid)
      → uuids.parse_str row.0.id ≡ some u
      → row_to_policy uuids row ≡ ok (policy_of_row u row)
  unfolding row_to_policy
  row_to_policy_lem row u e = rw (e, row_to_policy) refl

  mem_of_joined :
      (subjects : List SubjectRow) (policies : List PolicyRow) (row : PolicyRow × SubjectRow)
      → Memᴰ row (joined subjects policies)
      → (p : PolicyRow) × Memᴰ p policies × (with_subject subjects p ≡ some row)
  mem_of_joined subjects policies row m =
      mem_of_filter_map (with_subject subjects) row policies
        (mem_of_sort_by priority_desc row _ (mem_of_filter (is_of_subject none) row _ m).0)

  with_subject_sound :
      (subjects : List SubjectRow) (p : PolicyRow) (row : PolicyRow × SubjectRow)
      → with_subject subjects p ≡ some row
      → (r : SubjectRow) × Memᴰ r subjects × (r.id ≡ p.subject_id) × (row ≡ (p, r))
  unfolding with_subject
  with_subject_sound subjects p row e = elim (Option-cases (find (has_id p.subject_id) subjects)) [
    | inl missing ↦
        let impossible : ◌≡◌ {A = Option (PolicyRow × SubjectRow)} none (some row) =
          rw (missing, with_subject) at e in
        absurd (cc)
    | inr (r, found) ↦
        let same : ◌≡◌ {A = Option (PolicyRow × SubjectRow)} (some (p, r)) (some row) =
          rw (found, with_subject) at e in
        let (m, keyed) = mem_of_find (has_id p.subject_id) subjects r found in
        (r, m, (text_eq_iff r.id p.subject_id).0 keyed, cc)
  ]

  -- What `list_policies(None)` returns of the two tables.
  abbrev pub listing : List SubjectRow → List PolicyRow → Result DbError (List Policy)
  listing subjects policies = collect (row_to_policy uuids) (joined subjects policies)

  pub list_policies-listing :
      (s : IamStore) → list_policies uuids none s ≡ listing s.subjects s.policies
  unfolding list_policies
  list_policies-listing s = refl

  module _ {subjects : List SubjectRow} {policies : List PolicyRow}
      (sound : IsSound uuids subjects policies) where
    pub listing_total : (ps : List Policy) × (listing subjects policies ≡ ok ps)
    listing_total = collect_total (row_to_policy uuids) (joined subjects policies) (λ row m.
        let (p, mp, e) = mem_of_joined subjects policies row m in
        let (r, mr, _, same) = with_subject_sound subjects p row e in
        let (u, readable) = sound.readable p mp in
        (
          policy_of_row u row,
          row_to_policy_lem row u
              (ap (λ (w : PolicyRow × SubjectRow). uuids.parse_str w.0.id) same ∙ readable),
        ))

    pub listing-add_subject :
        (row : SubjectRow) → listing (subjects ++ row ∷ []) policies ≡ listing subjects policies
    listing-add_subject row =
        ap
          (λ rows.
            collect (row_to_policy uuids)
              (filter (is_of_subject none) (sort_by priority_desc rows)))
          (filter_map_congr (with_subject (subjects ++ row ∷ [])) (with_subject subjects) policies
            found_again)
      where
        found_again :
            (p : PolicyRow)
            → Memᴰ p policies
            → with_subject (subjects ++ row ∷ []) p ≡ with_subject subjects p
        found_again p m =
            let (r, mr, e) = sound.linked p m in
            with_subject_lem (subjects ++ row ∷ []) p r (
              find-append_left (has_id p.subject_id) subjects (row ∷ []) r
                (found_subject uuids sound p r mr e))
            ∙ sym (with_subject_lem subjects p r (found_subject uuids sound p r mr e))

    pub mem-listing :
        (p : PolicyRow) (r : SubjectRow) (u : Uuid) (ps : List Policy)
        → Memᴰ p policies
        → Memᴰ r subjects
        → r.id ≡ p.subject_id
        → uuids.parse_str p.id ≡ some u
        → listing subjects policies ≡ ok ps
        → Memᴰ (policy_of_row u (p, r)) ps
    unfolding is_of_subject
    mem-listing p r u ps mp mr e readable listed =
        mem-collect (row_to_policy uuids) ps (policy_of_row u (p, r)) listed
          (mem-filter (is_of_subject none)
            (mem-sort_by priority_desc (
              mem-filter_map (with_subject subjects) (p, r) mp
                (with_subject_lem subjects p r (found_subject uuids sound p r mr e))))
            refl)
          (row_to_policy_lem (p, r) u readable)

  pub mem_of_listing :
      (subjects : List SubjectRow) (policies : List PolicyRow) (ps : List Policy) (q : Policy)
      → listing subjects policies ≡ ok ps
      → Memᴰ q ps
      → (p : PolicyRow) × (r : SubjectRow) × (u : Uuid) × Memᴰ p policies
        × Memᴰ r subjects
        × (r.id ≡ p.subject_id)
        × (uuids.parse_str p.id ≡ some u)
        × (q ≡ policy_of_row u (p, r))
  unfolding row_to_policy
  mem_of_listing subjects policies ps q listed m =
      let (row, mrow, converted) =
        mem_of_collect (row_to_policy uuids) (joined subjects policies) ps q listed m in
      let (p, mp, e) = mem_of_joined subjects policies row mrow in
      let (r, mr, linked, same) = with_subject_sound subjects p row e in
      elim (Option-cases (uuids.parse_str p.id)) [
        | inl unread ↦
            let impossible : err decode_error ≡ ok q =
              rw (same, row_to_policy, unread) at converted in
            absurd (cc)
        | inr (u, readable) ↦
            let read : ok (policy_of_row u (p, r)) ≡ ok q =
              sym (row_to_policy_lem (p, r) u readable)
              ∙ ap (row_to_policy uuids) (sym same)
              ∙ converted in
            (p, r, u, mp, mr, linked, readable, cc)
      ]
