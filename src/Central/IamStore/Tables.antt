-- ===== src/Central/IamStore/Tables.antt =====
-- Sound tables of subjects and policies, and the writes that keep them sound.
use mathlib.Core.List.Memᴰ
use elan.Common.{
  ◌≡◌, sym, ap, ◌∙◌, subst, ◌++◌, [], ◌∷◌, List, Memᴰ, Bool, false, some, text_eq_iff, inl, inr,
  filter, find, any, arith,
}
use elan.Common.External.{Uuid, UuidCodec}
use elan.Common.Membership.{mem_of_filter, find-append_left, find-append_right}
use elan.Central.IamStore.{SubjectRow, PolicyRow, has_id}

module _ (uuids : UuidCodec) where
  -- An identifier finds its subject, every policy has a subject, and its identifier is readable.
  pub record IsSound (subjects : List SubjectRow) (policies : List PolicyRow) : Type 0 where
    pub keyed : (r : SubjectRow) → Memᴰ r subjects → find (has_id r.id) subjects ≡ some r
    pub linked :
        (p : PolicyRow)
        → Memᴰ p policies
        → (r : SubjectRow) × Memᴰ r subjects × (r.id ≡ p.subject_id)
    pub readable : (p : PolicyRow) → Memᴰ p policies → (u : Uuid) × (uuids.parse_str p.id ≡ some u)

  module _ {subjects : List SubjectRow} {policies : List PolicyRow}
      (sound : IsSound subjects policies) where
    pub found_subject :
        (p : PolicyRow) (r : SubjectRow)
        → Memᴰ r subjects
        → r.id ≡ p.subject_id
        → find (has_id p.subject_id) subjects ≡ some r
    found_subject p r mr e = subst (λ i. find (has_id i) subjects ≡ some r) e (sound.keyed r mr)

    pub add_subject-IsSound :
        (row : SubjectRow)
        → any (has_id row.id) subjects ≡ false
        → IsSound (subjects ++ row ∷ []) policies
    add_subject-IsSound row fresh = record {
      keyed = λ r m. elim (Memᴰ.append_cases subjects m) [
        | inl old ↦ find-append_left (has_id r.id) subjects (row ∷ []) r (sound.keyed r old)
        | inr new ↦
            let same : r ≡ row = Memᴰ.eq_of_singleton new in
            subst (λ w. find (has_id w.id) (subjects ++ row ∷ []) ≡ some w) (sym same)
              (find-append_right (has_id row.id) subjects (row ∷ []) fresh
                ∙ (ground (arith, text_eq_iff row.id row.id)))
      ];
      linked = λ p m. let (r, mr, e) = sound.linked p m in (r, Memᴰ.append_left (row ∷ []) mr, e);
      readable = sound.readable;
    }

    pub add_policy-IsSound :
        (row : PolicyRow) (r : SubjectRow)
        → Memᴰ r subjects
        → r.id ≡ row.subject_id
        → (u : Uuid) → uuids.parse_str row.id ≡ some u
        → IsSound subjects (policies ++ row ∷ [])
    add_policy-IsSound row r mr e u readable = record {
      keyed = sound.keyed;
      linked = λ p m. elim (Memᴰ.append_cases policies m) [
        | inl old ↦ sound.linked p old
        | inr new ↦
            (r, mr, e ∙ ap (λ (w : PolicyRow). w.subject_id) (sym (Memᴰ.eq_of_singleton new)))
      ];
      readable = λ p m. elim (Memᴰ.append_cases policies m) [
        | inl old ↦ sound.readable p old
        | inr new ↦
            (u, ap (λ (w : PolicyRow). uuids.parse_str w.id) (Memᴰ.eq_of_singleton new) ∙ readable)
      ];
    }

    pub filter-IsSound : (keep : PolicyRow → Bool) → IsSound subjects (filter keep policies)
    filter-IsSound keep = record {
      keyed = sound.keyed;
      linked = λ p m. sound.linked p (mem_of_filter keep p policies m).0;
      readable = λ p m. sound.readable p (mem_of_filter keep p policies m).0;
    }
