-- ===== src/Iam/Types.antt =====
-- crates/elan-iam/src/types.rs
pub mod Matching
use elan.Common.{
  ◌++◌, [], ◌∷◌, List, Bool, true, false, ◌||◌, Option, none, some, Text, codes, text_eq, contains,
  strip_suffix, eq_ignore_ascii_case, if◌then◌else◌,
}
use elan.Common.External.{Uuid}
use elan.Common.Signed.{ℤ}

pub record Subject : Type 0 where
  pub user_id : Text
  pub groups : List Text

pub record ResourceId : Type 0 where
  pub namespace : Text
  pub name : Text

-- `format!("{}.{}", self.namespace, self.name)`
abbrev pub qualified : ResourceId → Text
qualified r = r.namespace ++ (b'.' ∷ r.name)

pub data MaskKind : Type 0 where
  redact sha256 : MaskKind

abbrev pub ColumnMask : Type 0
ColumnMask = List (Text × MaskKind)

pub data AccessDecision : Type 0 where
  allow : Option Text → Option ColumnMask → AccessDecision
  deny : Text → AccessDecision

abbrev pub is_allowed : AccessDecision → Bool
is_allowed (allow row_filter column_mask) = true
is_allowed (deny reason) = false

pub data PolicyEffect : Type 0 where
  allow deny : PolicyEffect

pub data SubjectType : Type 0 where
  user group : SubjectType

pub record Policy : Type 0 where
  pub id : Uuid
  pub subject_name : Text
  pub subject_type : SubjectType
  pub resource_pattern : Text
  pub action : Text
  pub effect : PolicyEffect
  pub row_filter : Option Text
  pub column_mask_json : Option Text
  pub priority : ℤ

-- "finance.*" matches any dataset in namespace "finance"; else the match is exact.
matches_namespace : Option Text → Text → Text → Text → Bool
matches_namespace (some ns_pattern) pattern namespace name = text_eq ns_pattern namespace
matches_namespace none pattern namespace name =
    text_eq pattern (qualified (record { namespace = namespace; name = name }))

unfoldable pub matches_resource : Policy → Text → Text → Bool
unfolding matches_namespace
matches_resource p namespace name =
    if text_eq p.resource_pattern (codes "*")
    then true
    else matches_namespace (strip_suffix p.resource_pattern (codes ".*")) p.resource_pattern
        namespace name

unfoldable pub matches_action : Policy → Text → Bool
matches_action p action = text_eq p.action (codes "*") || eq_ignore_ascii_case p.action action

matches_name : SubjectType → Text → Subject → Bool
matches_name user subject_name subject =
    text_eq subject_name (codes "*") || text_eq subject_name subject.user_id
matches_name group subject_name subject = contains subject.groups subject_name

unfoldable pub matches_subject : Policy → Subject → Bool
unfolding matches_name
matches_subject p subject = matches_name p.subject_type p.subject_name subject
