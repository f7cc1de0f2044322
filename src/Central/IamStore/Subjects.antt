-- ===== src/Central/IamStore/Subjects.antt =====
-- Finding or creating a subject keeps the tables sound and leaves the listed policies alone.
use mathlib.Core.List.Memᴰ
use elan.Common.{
  ◌≡◌, refl, ◌++◌, [], ◌∷◌, Memᴰ, Bool, false, ◌||◌, none, some, Text, ◌⊎◌, inl, inr, find, any,
  Result, ok, err, arith, Bool-cases, Option-cases,
}
use elan.Common.External.{Uuid, UuidCodec}
use elan.Common.Membership.{mem_of_find}
use elan.Central.Database.{DbError}
use elan.Central.IamStore.{
  SubjectRow, IamStore, is_subject_type, has_id, has_name, insert_subject, create_subject,
  found_or_created, get_or_create_subject,
}
use elan.Central.IamStore.Tables.{IsSound, add_subject-IsSound}
use elan.Central.IamStore.Listing.{listing, listing-add_subject}

module _ (uuids : UuidCodec) (subject_type name : Text) (s : IamStore) where
  -- The row behind a returned identifier: the one of that name, or a new one of the given type.
  abbrev pub IsSubjectRow : SubjectRow → Type 0
  IsSubjectRow r =
      (find (has_name name) s.subjects ≡ some r)
      ⊎ ((find (has_name name) s.subjects ≡ none)
          × (r.subject_type ≡ subject_type)
          × (r.name ≡ name))

  pub record IsSettled (out : Result DbError Text × IamStore) : Type 0 where
    pub policies_kept : out.1.policies ≡ s.policies
    pub sound : IsSound uuids out.1.subjects s.policies
    pub listing_kept : listing uuids out.1.subjects s.policies ≡ listing uuids s.subjects s.policies
    pub subject :
        (id : Text)
        → out.0 ≡ ok id
        → (r : SubjectRow) × Memᴰ r out.1.subjects × (r.id ≡ id) × IsSubjectRow r

  module _ (sound : IsSound uuids s.subjects s.policies) where
    failed-IsSettled : (e : DbError) → IsSettled (err e, s)
    failed-IsSettled e = record {
      policies_kept = refl;
      sound = sound;
      listing_kept = refl;
      subject = λ id h. absurd (cc);
    }

    module _ (u : Uuid) where
      abbrev row : SubjectRow
      row = record { id = uuids.to_string u; subject_type = subject_type; name = name }

      abbrev is_taken : Bool
      is_taken = any (has_id row.id) s.subjects || any (has_name row.name) s.subjects

      added-IsSettled :
          find (has_name name) s.subjects ≡ none
          → is_taken ≡ false
          → IsSettled (ok row.id, record s { subjects = s.subjects ++ row ∷ [] })
      added-IsSettled missing free = record {
        policies_kept = refl;
        sound = add_subject-IsSound uuids sound row (ground arith);
        listing_kept = listing-add_subject uuids sound row;
        subject = λ id h.
            (row, Memᴰ.append_right s.subjects (Memᴰ.head refl), cc, inr (missing, refl, refl));
      }

      create_subject-IsSettled :
          find (has_name name) s.subjects ≡ none
          → IsSettled (create_subject uuids u subject_type name s)
      unfolding create_subject
      create_subject-IsSettled missing = elim (Bool-cases (is_subject_type subject_type)) [
        | inr misfits ↦ rw (misfits, insert_subject) (failed-IsSettled _)
        | inl fits ↦ elim (Bool-cases is_taken) [
          | inl taken ↦ rw (fits, taken, insert_subject) (failed-IsSettled _)
          | inr free ↦ rw (fits, free, insert_subject) (added-IsSettled missing free)
        ]
      ]

      pub get_or_create_subject-IsSettled :
          IsSettled (get_or_create_subject uuids u subject_type name s)
      unfolding get_or_create_subject
      get_or_create_subject-IsSettled = elim (Option-cases (find (has_name name) s.subjects)) [
        | inl missing ↦ rw (missing, found_or_created) (create_subject-IsSettled missing)
        | inr (r, found) ↦
            rw (found, found_or_created)
              (record {
                policies_kept = refl;
                sound = sound;
                listing_kept = refl;
                subject =
                    λ id h. (r, (mem_of_find (has_name name) s.subjects r found).0, cc, inl found);
              })
      ]
