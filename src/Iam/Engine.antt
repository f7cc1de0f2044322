-- ===== src/Iam/Engine.antt =====
-- crates/elan-iam/src/engine.rs
pub mod Order
pub mod Decision
pub mod Ambiguity
use Prim.Native.Nat.{Ordering}
use elan.Common.{
  ℕ, ◌++◌, [], ◌∷◌, List, Bool, true, false, ◌&&◌, Option, none, some, Text, codes, text_eq, first,
  filter, filter_map, if◌then◌else◌,
}
use elan.Common.External.{UuidCodec, Serde}
use elan.Common.Signed.{cmp}
use elan.Common.Sorting.{then_with, not_after, sort_by}
use elan.Iam.Types.{
  Subject, ResourceId, qualified, MaskKind, redact, sha256, ColumnMask, AccessDecision,
  PolicyEffect, Policy, matches_resource, matches_action, matches_subject,
}

-- The trait `IamEngine`, as its callers see an engine between two reloads.
pub record IamEngine : Type 0 where
  pub check : Subject → ResourceId → Text → AccessDecision

-- The closure of `filter` in `SnapshotIamEngine::check`.
unfoldable pub applies : Subject → ResourceId → Text → Policy → Bool
applies subject resource action p =
    matches_subject p subject
    && (matches_resource p resource.namespace resource.name && matches_action p action)

-- Deny < Allow, so that Deny sorts first.
abbrev effect_ord : PolicyEffect → ℕ
effect_ord PolicyEffect.deny = 0
effect_ord PolicyEffect.allow = 1

-- The comparison of `sort_by`: the effect, then the higher priority first.
pub compare_policies : Policy → Policy → Ordering
compare_policies a b =
    then_with (Prim.Native.Nat.compare (effect_ord a.effect) (effect_ord b.effect))
      (cmp b.priority a.priority)

unfoldable pub before : Policy → Policy → Bool
unfolding compare_policies
before a b = not_after (compare_policies a b)

mask_kind : Text × Text → Option (Text × MaskKind)
mask_kind (k, v) =
    if text_eq v (codes "REDACT")
    then some (k, redact)
    else if text_eq v (codes "SHA256")
    then some (k, sha256)
    else none

parsed_mask : Option (List (Text × Text)) → Option ColumnMask
unfolding mask_kind
parsed_mask none = none
parsed_mask (some m) = some (filter_map mask_kind m)

module _ (serde : Serde) where
  unfoldable pub column_mask : Option Text → Option ColumnMask
  unfolding parsed_mask
  column_mask none = none
  column_mask (some json) = parsed_mask (serde.map_from_str json)

module _ (uuids : UuidCodec) (serde : Serde) (subject : Subject) (resource : ResourceId) where
  -- The text of `format!("Deny policy '{}' matched for {}.{}", ..)`.
  unfoldable pub deny_reason : Policy → Text
  deny_reason p =
      codes "Deny policy '"
      ++ (uuids.to_string p.id ++ (codes "' matched for " ++ qualified resource))

  -- The text of `format!("No Allow policy for {} on {}.{}", ..)`.
  unfoldable pub no_policy_reason : Text
  no_policy_reason =
      codes "No Allow policy for " ++ (subject.user_id ++ (codes " on " ++ qualified resource))

  decide_effect : PolicyEffect → Policy → AccessDecision
  decide_effect PolicyEffect.deny p = AccessDecision.deny (deny_reason p)
  decide_effect PolicyEffect.allow p =
      AccessDecision.allow p.row_filter (column_mask serde p.column_mask_json)

  -- `if let Some(policy) = matching.first() { .. } else { .. }`
  unfoldable pub decide : Option Policy → AccessDecision
  unfolding decide_effect
  decide none = AccessDecision.deny no_policy_reason
  decide (some p) = decide_effect p.effect p

-- `SnapshotIamEngine::check` over the policies that the lock protects.
unfoldable pub check :
    UuidCodec → Serde → List Policy → Subject → ResourceId → Text → AccessDecision
check uuids serde policies subject resource action =
    decide uuids serde subject resource
      (first (sort_by before (filter (applies subject resource action) policies)))

-- `SnapshotIamEngine::new`, and the engine after `reload(policies)`: the snapshot is replaced whole.
unfoldable pub snapshot_engine : UuidCodec → Serde → List Policy → IamEngine
snapshot_engine uuids serde policies = record { check = check uuids serde policies }

unfoldable pub reload : List Policy → List Policy → List Policy
reload old policies = policies

unfoldable pub allow_all_engine : IamEngine
allow_all_engine = record { check = λ subject resource action. AccessDecision.allow none none }
