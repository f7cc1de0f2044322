-- ===== src/Iam/Types/Matching.antt =====
-- Which resources, actions and subjects a policy matches.
use elan.Common.{
  ◌≡◌, sym, ◌++◌, [], ◌∷◌, List, Memᴰ, map, ◌⊎◌, inl, inr, ◌↔◌, Bool, true, ◌&&◌, none, Text, codes,
  text_eq, text_eq_iff, strip_suffix, strip_suffix_iff, append_assoc, arith, Bool-cases,
  Option-cases, contains, to_ascii_lowercase,
}
use elan.Iam.Types.{
  Policy, ResourceId, Subject, SubjectType, user, group, qualified, matches_name, matches_namespace,
  matches_resource, matches_subject, matches_action,
}

-- The three ways in which a pattern covers a dataset, without the order of the tests.
abbrev pub Covers : Text → ResourceId → Type 0
Covers pattern r =
    (pattern ≡ codes "*")
    ⊎ (pattern ≡ r.namespace ++ codes ".*")
    ⊎ ((strip_suffix pattern (codes ".*") ≡ none) × (pattern ≡ qualified r))

matches_namespace_iff :
    (pattern ns name : Text)
    → (matches_namespace (strip_suffix pattern (codes ".*")) pattern ns name ≡ true) ↔ (
        (pattern ≡ ns ++ codes ".*")
        ⊎ ((strip_suffix pattern (codes ".*") ≡ none) × (pattern ≡ ns ++ (b'.' ∷ name))))
unfolding matches_namespace
matches_namespace_iff pattern ns name = elim (Option-cases (strip_suffix pattern (codes ".*"))) [
  | inl e ↦ ground (
    arith,
    e,
    text_eq_iff pattern (ns ++ (b'.' ∷ name)),
    strip_suffix_iff pattern (codes ".*") ns,
  )
  | inr (t, e) ↦ ground (
    arith,
    e,
    text_eq_iff t ns,
    strip_suffix_iff pattern (codes ".*") ns,
    strip_suffix_iff pattern (codes ".*") t,
  )
]

-- A policy matches a dataset exactly if its pattern is "*", is the namespace followed by ".*", or
-- does not end in ".*" and is the qualified name.
pub matches_resource_iff :
    (p : Policy) (r : ResourceId)
    → (matches_resource p r.namespace r.name ≡ true) ↔ Covers p.resource_pattern r
unfolding matches_resource
matches_resource_iff p r = ground (
  arith,
  text_eq_iff p.resource_pattern (codes "*"),
  matches_namespace_iff p.resource_pattern r.namespace r.name,
)

pub matches_resource_alike :
    (p : Policy) (ns mid name : Text)
    → strip_suffix p.resource_pattern (codes ".*") ≡ none
    → matches_resource p ns (mid ++ (b'.' ∷ name)) ≡ matches_resource p (ns ++ (b'.' ∷ mid)) name
unfolding matches_resource matches_namespace
matches_resource_alike p ns mid name exact = simp (exact, append_assoc)

-- The subjects that a policy names: any user or one user, or the members of a group.
abbrev pub Names : SubjectType → Text → Subject → Type 0
Names user name s = (name ≡ codes "*") ⊎ (name ≡ s.user_id)
Names group name s = Memᴰ name s.groups

-- A policy's action is "*" or the requested one, up to the case of ASCII letters.
abbrev pub Permits : Text → Text → Type 0
Permits pattern action =
    (pattern ≡ codes "*") ⊎ (map to_ascii_lowercase pattern ≡ map to_ascii_lowercase action)

contains_sound : (xs : List Text) (t : Text) → contains xs t ≡ true → Memᴰ t xs
contains_sound [] t h = cc
contains_sound (x ∷ xs) t h = elim (Bool-cases (text_eq x t)) [
  | inl same ↦ Memᴰ.head (sym ((text_eq_iff x t).0 same))
  | inr other ↦ Memᴰ.tail (contains_sound xs t (rw other at h))
]

contains_complete : {t : Text} {xs : List Text} → Memᴰ t xs → contains xs t ≡ true
contains_complete {t} (Memᴰ.head {x = y} e) = ground (arith, text_eq_iff y t)
contains_complete {t} (Memᴰ.tail {x = y} m) = ground (arith, contains_complete m)

matches_name_iff :
    (k : SubjectType) (name : Text) (s : Subject) → (matches_name k name s ≡ true) ↔ Names k name s
unfolding matches_name
matches_name_iff user name s =
    ground (arith, text_eq_iff name (codes "*"), text_eq_iff name s.user_id)
matches_name_iff group name s = (contains_sound s.groups name, contains_complete)

-- What it means for a policy to concern a request, written without the tests of the code.
abbrev pub Concerns : Subject → ResourceId → Text → Policy → Type 0
Concerns s r action p =
    Names p.subject_type p.subject_name s × Covers p.resource_pattern r × Permits p.action action

matches_action_iff :
    (p : Policy) (action : Text) → (matches_action p action ≡ true) ↔ Permits p.action action
unfolding matches_action
matches_action_iff p action = ground (
  arith,
  text_eq_iff p.action (codes "*"),
  text_eq_iff (map to_ascii_lowercase p.action) (map to_ascii_lowercase action),
)

&&-true : (a b : Bool) → ((a && b) ≡ true) ↔ ((a ≡ true) × (b ≡ true))
&&-true a b = ground arith

-- The three tests together accept a policy exactly if it concerns the request.
pub matches_iff :
    (s : Subject) (r : ResourceId) (action : Text) (p : Policy)
    → ((matches_subject p s && (matches_resource p r.namespace r.name && matches_action p action))
        ≡ true)
      ↔ Concerns s r action p
unfolding matches_subject
matches_iff s r action p =
    let (n, n') = matches_name_iff p.subject_type p.subject_name s in
    let (c, c') = matches_resource_iff p r in
    let (a, a') = matches_action_iff p action in
    let (f, f') =
      &&-true (matches_name p.subject_type p.subject_name s)
        (matches_resource p r.namespace r.name && matches_action p action) in
    let (g, g') = &&-true (matches_resource p r.namespace r.name) (matches_action p action) in
    (λ h. (n (f h).0, c (g (f h).1).0, a (g (f h).1).1), λ k. f' (n' k.0, g' (c' k.1, a' k.2)))
