-- ===== src/Iam/Engine/Decision.antt =====
-- What `SnapshotIamEngine::check` decides, on every branch.
use mathlib.Core.List.Memᴰ
use elan.Common.{
  ◌≡◌, refl, sym, ◌∙◌, ◌⊎◌, inl, inr, ◌↔◌, true, Option, none, some, List, Memᴰ, Text, first,
  filter, arith,
}
use elan.Common.External.{UuidCodec, Serde}
use elan.Common.Membership.{mem_of_filter, mem-filter, All_of_mem}
use elan.Common.Sorting.{sort_by, first-sort_by, mem_of_least, least-eq-none, least-le}
use elan.Iam.Types.{Subject, ResourceId, AccessDecision, is_allowed, PolicyEffect, Policy}
use elan.Iam.Types.Matching.{Concerns, matches_iff}
use elan.Iam.Engine.{
  applies, before, column_mask, deny_reason, no_policy_reason, decide_effect, decide, check,
}
use elan.Iam.Engine.Order.{Beats, before_iff, before_total, before_trans}

module _ (uuids : UuidCodec) (serde : Serde) (ps : List Policy) (s : Subject) (r : ResourceId)
    (action : Text) where
  applies_iff : (p : Policy) → (applies s r action p ≡ true) ↔ Concerns s r action p
  unfolding applies
  applies_iff p = matches_iff s r action p

  -- `p` is listed, concerns the request, and beats every listed policy that does.
  pub record IsDecisive (p : Policy) : Type 0 where
    pub listed : Memᴰ p ps
    pub concerned : Concerns s r action p
    pub beats : (q : Policy) → Memᴰ q ps → Concerns s r action q → Beats p q

  abbrev chosen : Option Policy
  chosen = first (sort_by before (filter (applies s r action) ps))

  chosen-IsDecisive : (p : Policy) → chosen ≡ some p → IsDecisive p
  chosen-IsDecisive p e =
      let e' = sym (first-sort_by before (filter (applies s r action) ps)) ∙ e in
      let (listed, holds) =
        mem_of_filter (applies s r action) p ps
          (mem_of_least before p (filter (applies s r action) ps) e') in
      let below = least-le before before_total before_trans p (filter (applies s r action) ps) e' in
      record {
        listed = listed;
        concerned = (applies_iff p).0 holds;
        beats = λ q m c. (before_iff p q).0 (
            All_of_mem (λ z. before p z ≡ true) below
              (mem-filter (applies s r action) m ((applies_iff q).1 c)));
      }

  chosen-none : chosen ≡ none → (q : Policy) → Memᴰ q ps → ¬ Concerns s r action q
  chosen-none e q m c =
      let empty =
        least-eq-none before (filter (applies s r action) ps)
          (sym (first-sort_by before (filter (applies s r action) ps)) ∙ e) in
      absurd (Memᴰ.not-nil (rw empty at (mem-filter (applies s r action) m ((applies_iff q).1 c))))

  check-chosen : check uuids serde ps s r action ≡ decide uuids serde s r chosen
  unfolding check
  check-chosen = refl

  -- What the decision says of the policies, on each of the three branches.
  pub Justified : AccessDecision → Type 0
  Justified (AccessDecision.allow row_filter mask) =
      (p : Policy) × IsDecisive p
      × (p.effect ≡ PolicyEffect.allow)
      × (row_filter ≡ p.row_filter)
      × (mask ≡ column_mask serde p.column_mask_json)
  Justified (AccessDecision.deny reason) =
      ((p : Policy) × IsDecisive p
        × (p.effect ≡ PolicyEffect.deny)
        × (reason ≡ deny_reason uuids serde s r p))
      ⊎ (((q : Policy) → Memᴰ q ps → ¬ Concerns s r action q)
          × (reason ≡ no_policy_reason uuids serde s r))

  decide_effect-Justified :
      (p : Policy) (e : PolicyEffect)
      → p.effect ≡ e
      → IsDecisive p
      → Justified (decide_effect uuids serde s r e p)
  unfolding decide_effect Justified
  decide_effect-Justified p PolicyEffect.allow e d = (p, d, e, refl, refl)
  decide_effect-Justified p PolicyEffect.deny e d = inl (p, d, e, refl)

  decide-Justified : (o : Option Policy) → chosen ≡ o → Justified (decide uuids serde s r o)
  unfolding decide Justified
  decide-Justified none e = inr (chosen-none e, refl)
  decide-Justified (some p) e = decide_effect-Justified p p.effect refl (chosen-IsDecisive p e)

  -- The decision is that of a listed policy which concerns the request and beats all that do: an
  -- Allow with that policy's row filter and column mask, or a Deny with its identifier in the
  -- reason. If no listed policy concerns the request, it is the default Deny.
  pub check-Justified : Justified (check uuids serde ps s r action)
  check-Justified = rw check-chosen (decide-Justified chosen refl)

  Allowing : Type 0
  Allowing =
      ((p : Policy) × Memᴰ p ps × Concerns s r action p)
      × ((q : Policy) → Memᴰ q ps → Concerns s r action q → q.effect ≡ PolicyEffect.allow)

  allow_of_Beats :
      (p q : Policy) → p.effect ≡ PolicyEffect.allow → Beats p q → q.effect ≡ PolicyEffect.allow
  allow_of_Beats p q e b = ground arith

  deny_of_Allowing : Allowing → (p : Policy) → IsDecisive p → p.effect ≡ PolicyEffect.deny → ⊥
  unfolding Allowing
  deny_of_Allowing h p d e = cc (h.1 p d.listed d.concerned)

  allowed_iff : (d : AccessDecision) → Justified d → (is_allowed d ≡ true) ↔ Allowing
  unfolding Justified Allowing
  allowed_iff (AccessDecision.allow row_filter mask) (p, d, e, _, _) =
      (λ _. ((p, d.listed, d.concerned), λ q m c. allow_of_Beats p q e (d.beats q m c)), λ _. refl)
  allowed_iff (AccessDecision.deny reason) (inl (p, d, e, _)) =
      (λ h. cc, λ h. absurd (deny_of_Allowing h p d e))
  allowed_iff (AccessDecision.deny reason) (inr (nobody, _)) =
      (λ h. cc, λ h. absurd (nobody h.0.0 h.0.1 h.0.2))

  -- Access is granted exactly if some listed policy concerns the request and every listed policy
  -- that concerns it is an Allow: a Deny of any priority wins, and the default is to deny.
  pub check_allowed_iff : (is_allowed (check uuids serde ps s r action) ≡ true) ↔ (
      ((p : Policy) × Memᴰ p ps × Concerns s r action p)
      × ((q : Policy) → Memᴰ q ps → Concerns s r action q → q.effect ≡ PolicyEffect.allow))
  unfolding Allowing
  check_allowed_iff = allowed_iff (check uuids serde ps s r action) check-Justified
