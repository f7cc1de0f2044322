-- ===== src/Iam/Engine/Ambiguity.antt =====
-- Datasets whose qualified names read alike.
use elan.Common.{
  ◌≡◌, refl, sym, ap, ◌∙◌, ◌++◌, [], ◌∷◌, List, Memᴰ, inl, inr, All, Option, some, true, none, Text,
  codes, filter, first, strip_suffix, append_assoc, Bool-cases, subst,
}
use elan.Common.External.{UuidCodec, Serde}
use elan.Iam.Types.{Policy, PolicyEffect, Subject, ResourceId, is_allowed, qualified}
use elan.Iam.Types.Matching.{Names, Permits, matches_resource_alike}
use elan.Common.Sorting.{sort_by}
use elan.Iam.Engine.{applies, before, deny_reason, no_policy_reason, decide_effect, decide, check}
use elan.Iam.Engine.Decision.{check_allowed_iff}

-- The pattern is no namespace wildcard: it is "*" or the qualified name of datasets.
abbrev pub NamesDatasets : Policy → Type 0
NamesDatasets p = strip_suffix p.resource_pattern (codes ".*") ≡ none

module _ (ns mid name : Text) where
  -- Dataset "mid.name" of namespace "ns", and dataset "name" of namespace "ns.mid".
  abbrev pub inner : ResourceId
  inner = record { namespace = ns; name = mid ++ (b'.' ∷ name) }

  abbrev pub outer : ResourceId
  outer = record { namespace = ns ++ (b'.' ∷ mid); name = name }

  qualified_alike : qualified inner ≡ qualified outer
  qualified_alike = sym (append_assoc ns (b'.' ∷ mid) (b'.' ∷ name))

  module _ (s : Subject) (action : Text) where
    applies_alike :
        (p : Policy) → NamesDatasets p → applies s inner action p ≡ applies s outer action p
    unfolding applies
    applies_alike p exact = rw (matches_resource_alike p ns mid name exact) refl

    filter_alike :
        (ps : List Policy)
        → All NamesDatasets ps
        → filter (applies s inner action) ps ≡ filter (applies s outer action) ps
    filter_alike [] h = refl
    filter_alike (p ∷ ps) (exact, h) = elim (Bool-cases (applies s outer action p)) [
      | inl holds ↦
          rw (applies_alike p exact ∙ holds, holds)
            (ap (λ (l : List Policy). p ∷ l) (filter_alike ps h))
      | inr fails ↦ rw (applies_alike p exact ∙ fails, fails) (filter_alike ps h)
    ]

    effect_alike :
        (uuids : UuidCodec) (serde : Serde) (e : PolicyEffect) (p : Policy)
        → decide_effect uuids serde s inner e p ≡ decide_effect uuids serde s outer e p
    unfolding decide_effect deny_reason
    effect_alike uuids serde PolicyEffect.deny p = rw qualified_alike refl
    effect_alike uuids serde PolicyEffect.allow p = refl

    decide_alike :
        (uuids : UuidCodec) (serde : Serde) (o : Option Policy)
        → decide uuids serde s inner o ≡ decide uuids serde s outer o
    unfolding decide no_policy_reason
    decide_alike uuids serde none = rw qualified_alike refl
    decide_alike uuids serde (some p) = effect_alike uuids serde p.effect p

    -- Policies without namespace wildcards cannot tell dataset "b.c" of namespace "a" from dataset "c"
    -- of namespace "a.b": the engine decides alike on both, with row filter, mask and reason. So a
    -- policy that grants one of them by its qualified name, among policies that all allow, also grants
    -- the other.
    pub check_ambiguous :
        (uuids : UuidCodec) (serde : Serde) (ps : List Policy) (p : Policy)
        → All NamesDatasets ps
        → Memᴰ p ps
        → NamesDatasets p
        → p.resource_pattern ≡ qualified inner
        → Names p.subject_type p.subject_name s
        → Permits p.action action
        → ((q : Policy) → Memᴰ q ps → q.effect ≡ PolicyEffect.allow)
        → (check uuids serde ps s inner action ≡ check uuids serde ps s outer action)
          × (is_allowed (check uuids serde ps s outer action) ≡ true)
    unfolding check
    check_ambiguous uuids serde ps p exact m exact_p named subject permitted allows =
        let same =
          ap (λ l. decide uuids serde s inner (first (sort_by before l))) (filter_alike ps exact)
          ∙ decide_alike uuids serde
              (first (sort_by before (filter (applies s outer action) ps))) in
        let granted =
          (check_allowed_iff uuids serde ps s inner action).1
            ((p, m, (subject, inr (inr (exact_p, named)), permitted)), λ q n c. allows q n) in
        (same, subst (λ d. is_allowed d ≡ true) same granted)
