-- ===== src/Central/IamService.antt =====
-- crates/elan-central/src/grpc/iam_svc.rs: the store and the engine that is reloaded after writes.
pub mod Soundness
pub mod Creation
pub mod Serving
pub mod Grants
pub mod Deletion
use elan.Common.{
  ℕ, [], ◌∷◌, List, Bool, true, false, Option, none, some, Text, codes, text_eq, map, Result, ok,
  err, map_err, none_if_empty, unwrap_or_default, if◌then◌else◌,
}
use elan.Common.External.{Uuid, UuidCodec, Serde}
use elan.Common.Exec.{Exec, ◌>>=◌, ◌>>◌, pure}
use elan.Common.Signed.{ℤ, pos, negsuc, is_one}
use elan.Domain.Errors.{Status}
use elan.Domain.Proto.{PolicyProto, AccessRequest, AccessDecisionProto}
use elan.Iam.Types.{
  Subject, ResourceId, MaskKind, redact, sha256, ColumnMask, AccessDecision, PolicyEffect,
  SubjectType, user, group, Policy,
}
use elan.Iam.Engine.{check}
use elan.Central.Database.{DbError, to_status}
use elan.Central.IamStore
use elan.Central.IamStore.{IamStore, Iam}

-- The policies of `engine` are the snapshot behind the engine's lock.
pub record IamSvc : Type 0 where
  pub store : IamStore
  pub engine : List Policy

abbrev pub Service : Type 0 → Type 0
Service A = Exec Status IamSvc A

abbrev mask_text : MaskKind → Text
mask_text redact = codes "REDACT"
mask_text sha256 = codes "SHA256"

mask_entry : Text × MaskKind → Text × Text
mask_entry (k, v) = (k, mask_text v)

mask_json : Serde → Option ColumnMask → Text
mask_json serde none = []
mask_json serde (some m) = unwrap_or_default (serde.map_to_string (map mask_entry m))

unfoldable pub decision_to_proto : Serde → AccessDecision → AccessDecisionProto
unfolding mask_json mask_entry
decision_to_proto serde (AccessDecision.allow row_filter column_mask) = record {
  allowed = true;
  reason = [];
  row_filter = unwrap_or_default row_filter;
  column_mask_json = mask_json serde column_mask;
}
decision_to_proto serde (AccessDecision.deny reason) = record {
  allowed = false;
  reason = reason;
  row_filter = [];
  column_mask_json = [];
}

abbrev pub subject_of : AccessRequest → Subject
subject_of req = record { user_id = req.user_id; groups = req.groups }

abbrev pub resource_of : AccessRequest → ResourceId
resource_of req = record { namespace = req.namespace; name = req.dataset }

unfoldable pub check_access : UuidCodec → Serde → AccessRequest → IamSvc → AccessDecisionProto
check_access uuids serde req svc =
    decision_to_proto serde
      (check uuids serde svc.engine (subject_of req) (resource_of req) req.action)

abbrev pub subject_type_text : SubjectType → Text
subject_type_text user = codes "user"
subject_type_text group = codes "group"

abbrev pub effect_number : PolicyEffect → ℤ
effect_number PolicyEffect.allow = pos 0
effect_number PolicyEffect.deny = pos 1

module _ (uuids : UuidCodec) where
  -- The message of one policy in the stream of `list_policies`.
  unfoldable pub policy_to_proto : Policy → PolicyProto
  policy_to_proto p = record {
    policy_id = uuids.to_string p.id;
    subject_name = p.subject_name;
    subject_type = subject_type_text p.subject_type;
    resource_pattern = p.resource_pattern;
    action = p.action;
    effect = effect_number p.effect;
    row_filter = unwrap_or_default p.row_filter;
    column_mask_json = unwrap_or_default p.column_mask_json;
    priority = p.priority;
  }

module _ (uuids : UuidCodec) (db_text : DbError → Text) where
  -- A statement of the store, its error mapped to `Status::internal`.
  on_store : {A : Type 0} → Iam A → Service A
  on_store m svc =
      let (r, store) = m svc.store in (map_err (to_status db_text) r, record svc { store = store })

  unfoldable pub list_policies : Text → IamSvc → Result Status (List PolicyProto)
  list_policies subject_name svc =
      elim (IamStore.list_policies uuids (none_if_empty subject_name) svc.store) [
        | ok policies ↦ ok (map (policy_to_proto uuids) policies)
        | err e ↦ err (to_status db_text e)
      ]

  reloaded : IamSvc → Result DbError (List Policy) → Result Status (Unit {0}) × IamSvc
  reloaded svc (ok policies) = (ok tt, record svc { engine = policies })
  reloaded svc (err e) = (err (to_status db_text e), svc)

  unfoldable pub reload_engine : Service (Unit {0})
  unfolding reloaded
  reload_engine svc = reloaded svc (IamStore.list_policies uuids none svc.store)

  abbrev pub effect_text : ℤ → Text
  effect_text effect = if is_one effect then codes "Deny" else codes "Allow"

  unfoldable pub create_policy : Uuid → Uuid → PolicyProto → Service Text
  unfolding on_store
  create_policy u v p = do
    policy_id ← on_store (
        IamStore.create_policy uuids u v p.subject_name p.subject_type p.resource_pattern p.action
          (effect_text p.effect) (none_if_empty p.row_filter) (none_if_empty p.column_mask_json)
          p.priority)
    reload_engine
    pure policy_id

  unfoldable pub delete_policy : Text → Service (Unit {0})
  unfolding on_store
  delete_policy policy_id = do on_store (IamStore.delete_policy policy_id); reload_engine

  unfoldable pub create_subject : Uuid → Text → Text → Service Text
  unfolding on_store
  create_subject u subject_type name =
      on_store (IamStore.get_or_create_subject uuids u subject_type name)

  unfoldable pub add_group_member : Uuid → Uuid → Text → Text → Service (Unit {0})
  unfolding on_store
  add_group_member u v group_name user_name =
      on_store (IamStore.add_group_member uuids u v group_name user_name)
