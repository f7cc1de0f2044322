-- ===== src/Central/IamStore.antt =====
-- crates/elan-central/src/db/iam_store.rs, over the tables of migrations/0003_iam.sql and
-- migrations/0004_audit_local.sql. `Uuid::new_v4` is an argument.
pub mod Tables
pub mod Listing
pub mod Subjects
pub mod AuditLog
use elan.Common.{
  ℕ, ◌++◌, [], ◌∷◌, List, Bool, true, false, ◌||◌, ◌&&◌, not, Option, none, some, Text, codes,
  text_eq, contains, filter, filter_map, find, any, take, Result, ok, err, collect, is_empty, ok_or,
  if◌then◌else◌,
}
use elan.Common.External.{Uuid, UuidCodec}
use elan.Common.Exec.{Exec, ◌>>=◌, ◌>>◌, pure, lift}
use elan.Common.Signed.{ℤ, cmp, as_i32}
use elan.Common.Sorting.{sort_by, not_after}
use elan.Iam.Types.{Policy, PolicyEffect, SubjectType, user, group}
use elan.Central.Database.{
  DbError, unique_violation, check_violation, foreign_key_violation, decode_error,
}

pub record SubjectRow : Type 0 where
  pub id : Text
  pub subject_type : Text
  pub name : Text

pub record MemberRow : Type 0 where
  pub group_id : Text
  pub user_id : Text

pub record PolicyRow : Type 0 where
  pub id : Text
  pub subject_id : Text
  pub resource_pattern : Text
  pub action : Text
  pub effect : Text
  pub row_filter : Option Text
  pub column_mask_json : Option Text
  pub priority : ℤ

pub record AuditRow : Type 0 where
  pub id : Text
  pub event_type : Text
  pub occurred_at : Text
  pub source_service : Text
  pub user_id : Text
  pub session_id : Option Text
  pub payload_json : Text

pub record IamStore : Type 0 where
  pub subjects : List SubjectRow
  pub members : List MemberRow
  pub policies : List PolicyRow
  pub audit_events : List AuditRow

abbrev pub Iam : Type 0 → Type 0
Iam A = Exec DbError IamStore A

-- `CHECK(subject_type IN ('user','group'))`
abbrev pub is_subject_type : Text → Bool
is_subject_type t = text_eq t (codes "user") || text_eq t (codes "group")

abbrev pub has_id : Text → SubjectRow → Bool
has_id id r = text_eq r.id id

abbrev pub has_name : Text → SubjectRow → Bool
has_name name r = text_eq r.name name

-- The insert of a row whose `id` and `name` are unique. SQLite checks a row before its keys.
insert_subject : SubjectRow → Iam (Unit {0})
insert_subject row s =
    if not (is_subject_type row.subject_type)
    then (err check_violation, s)
    else if any (has_id row.id) s.subjects || any (has_name row.name) s.subjects
    then (err unique_violation, s)
    else (ok tt, record s { subjects = s.subjects ++ row ∷ [] })

-- `CHECK(effect IN ('Allow','Deny'))`
abbrev pub is_effect : Text → Bool
is_effect t = text_eq t (codes "Allow") || text_eq t (codes "Deny")

-- The insert of a row whose `id` is unique and whose `subject_id` refers to a subject.
insert_policy : PolicyRow → Iam (Unit {0})
insert_policy row s =
    if not (is_effect row.effect)
    then (err check_violation, s)
    else if any (λ p. text_eq p.id row.id) s.policies
    then (err unique_violation, s)
    else if any (has_id row.subject_id) s.subjects
    then (ok tt, record s { policies = s.policies ++ row ∷ [] })
    else (err foreign_key_violation, s)

-- `INSERT OR IGNORE` under the primary key (group_id, user_id).
unfoldable pub insert_member : MemberRow → Iam (Unit {0})
insert_member row s =
    if any (λ m. text_eq m.group_id row.group_id && text_eq m.user_id row.user_id) s.members
    then (ok tt, s)
    else (ok tt, record s { members = s.members ++ row ∷ [] })

unfoldable pub delete_policy : Text → Iam (Unit {0})
delete_policy policy_id s =
    (ok tt, record s { policies = filter (λ p. not (text_eq p.id policy_id)) s.policies })

-- `JOIN iam_subjects s ON s.id = p.subject_id`, over a primary key.
pub with_subject : List SubjectRow → PolicyRow → Option (PolicyRow × SubjectRow)
with_subject subjects p = elim (find (has_id p.subject_id) subjects) [
  | none ↦ none
  | some r ↦ some (p, r)
]

-- `ORDER BY p.priority DESC`
pub priority_desc : PolicyRow × SubjectRow → PolicyRow × SubjectRow → Bool
priority_desc a b = not_after (cmp b.0.priority a.0.priority)

pub is_of_subject : Option Text → PolicyRow × SubjectRow → Bool
is_of_subject none row = true
is_of_subject (some name) row = text_eq row.1.name name

abbrev pub subject_type_of : Text → SubjectType
subject_type_of t = if text_eq t (codes "group") then group else user

abbrev pub effect_of : Text → PolicyEffect
effect_of t = if text_eq t (codes "Deny") then PolicyEffect.deny else PolicyEffect.allow

-- The policy of a joined row, once its identifier is parsed.
abbrev pub policy_of_row : Uuid → PolicyRow × SubjectRow → Policy
policy_of_row u row = record {
  id = u;
  subject_name = row.1.name;
  subject_type = subject_type_of row.1.subject_type;
  resource_pattern = row.0.resource_pattern;
  action = row.0.action;
  effect = effect_of row.0.effect;
  row_filter = row.0.row_filter;
  column_mask_json = row.0.column_mask_json;
  priority = as_i32 row.0.priority;
}

module _ (uuids : UuidCodec) where
  unfoldable pub create_subject : Uuid → Text → Text → Iam Text
  unfolding insert_subject
  create_subject u subject_type name = do
    let id = uuids.to_string u
    insert_subject (record { id = id; subject_type = subject_type; name = name })
    pure id

  found_or_created : Uuid → Text → Text → Option SubjectRow → Iam Text
  found_or_created u subject_type name (some r) = pure r.id
  found_or_created u subject_type name none = create_subject u subject_type name

  unfoldable pub get_or_create_subject : Uuid → Text → Text → Iam Text
  unfolding found_or_created create_subject
  get_or_create_subject u subject_type name s =
      found_or_created u subject_type name (find (has_name name) s.subjects) s

  unfoldable pub add_group_member : Uuid → Uuid → Text → Text → Iam (Unit {0})
  unfolding insert_member
  add_group_member u v group_name user_name = do
    group_id ← get_or_create_subject u (codes "group") group_name
    user_id ← get_or_create_subject v (codes "user") user_name
    insert_member (record { group_id = group_id; user_id = user_id })

  unfoldable pub create_policy :
      Uuid → Uuid → Text → Text → Text → Text → Text → Option Text → Option Text → ℤ → Iam Text
  unfolding insert_policy
  create_policy u v subject_name subject_type resource_pattern action effect row_filter
        column_mask_json priority =
      do
        subject_id ← get_or_create_subject u subject_type subject_name
        let policy_id = uuids.to_string v
        insert_policy (record {
          id = policy_id;
          subject_id = subject_id;
          resource_pattern = resource_pattern;
          action = action;
          effect = effect;
          row_filter = row_filter;
          column_mask_json = column_mask_json;
          priority = priority;
        })
        pure policy_id

  pub row_to_policy : PolicyRow × SubjectRow → Result DbError Policy
  row_to_policy row = elim (uuids.parse_str row.0.id) [
    | none ↦ err decode_error
    | some u ↦ ok (policy_of_row u row)
  ]

  unfoldable pub list_policies : Option Text → IamStore → Result DbError (List Policy)
  unfolding with_subject priority_desc is_of_subject row_to_policy
  list_policies subject_name s = collect row_to_policy (
      filter (is_of_subject subject_name)
        (sort_by priority_desc (filter_map (with_subject s.subjects) s.policies)))
