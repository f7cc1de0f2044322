-- ===== src/Examples/Central.antt =====
-- Examples for the services of elan-central.
use mathlib.Core.List.Memᴰ
use elan.Common.{◌≡◌, refl, [], ◌∷◌, Memᴰ, inl, inr, true, false, Text, codes, ok, strip_suffix}
use elan.Common.Signed.{pos}
use elan.Domain.Proto.{PolicyProto, AccessRequest}
use elan.Iam.Types.{Policy, PolicyEffect}
use elan.Iam.Types.Matching.{Concerns}
use elan.Central.Database.{DbError}
use elan.Central.IamStore
use elan.Central.IamStore.{IamStore}
use elan.Central.IamService
use elan.Central.IamService.{IamSvc, create_policy, check_access, subject_of, resource_of}
use elan.Central.IamService.Soundness.{IsSynced}
use elan.Central.IamService.Creation.{IsCreated, create_policy-IsCreated, create_policy-IsSynced}
use elan.Central.IamService.Grants.{IsConcerned, create_policy_denies, create_policy_allows}
use elan.Examples.Codecs.{uuids, serde}

abbrev pub db_text : DbError → Text
db_text e = codes "database error"

abbrev pub empty_svc : IamSvc
empty_svc = record {
  store = record { subjects = []; members = []; policies = []; audit_events = [] };
  engine = [];
}

empty_svc-IsSynced : IsSynced uuids empty_svc
unfolding IamStore.list_policies
empty_svc-IsSynced = record {
  tables = record {
    keyed = λ r m. absurd (Memᴰ.not-nil m);
    linked = λ p m. absurd (Memᴰ.not-nil m);
    readable = λ p m. absurd (Memᴰ.not-nil m);
  };
  synced = refl;
}

abbrev pub grant : PolicyProto
grant = record {
  policy_id = [];
  subject_name = codes "alice";
  subject_type = codes "user";
  resource_pattern = codes "finance.*";
  action = codes "SELECT";
  effect = pos 0;
  row_filter = [];
  column_mask_json = [];
  priority = pos 5;
}

abbrev ban : PolicyProto
ban = record grant { resource_pattern = codes "finance.trades"; effect = pos 1; priority = pos 0 }

abbrev req : AccessRequest
req = record {
  user_id = codes "alice";
  groups = [];
  namespace = codes "finance";
  dataset = codes "trades";
  action = codes "select";
}

-- The service with the grant, and then with the ban.
abbrev pub granted : IamSvc
granted = (create_policy uuids db_text 1 2 grant empty_svc).1

abbrev banned : IamSvc
banned = (create_policy uuids db_text 3 4 ban granted).1

pub granted-IsSynced : IsSynced uuids granted
granted-IsSynced = create_policy-IsSynced uuids db_text empty_svc empty_svc-IsSynced 1 2 grant

grant_created : create_policy uuids db_text 1 2 grant empty_svc ≡ (ok (2 ∷ []), granted)
unfolding create_policy IamService.reload_engine IamStore.create_policy
    IamStore.get_or_create_subject IamStore.list_policies
grant_created = refl

ban_created : create_policy uuids db_text 3 4 ban granted ≡ (ok (4 ∷ []), banned)
unfolding create_policy IamService.reload_engine IamStore.create_policy
    IamStore.get_or_create_subject IamStore.list_policies
ban_created = refl

ban-IsConcerned :
    IsConcerned uuids serde db_text granted banned granted-IsSynced 3 4 ban (4 ∷ []) ban_created req
unfolding create_policy IamService.reload_engine IamStore.create_policy
    IamStore.get_or_create_subject IamStore.list_policies strip_suffix
ban-IsConcerned = (inr refl, inr (inr (refl, refl)), inr refl)

create_policy_denies_example : (check_access uuids serde req banned).allowed ≡ false
create_policy_denies_example =
    create_policy_denies uuids serde db_text granted banned granted-IsSynced 3 4 ban (4 ∷ [])
      ban_created req refl ban-IsConcerned

nothing_denied :
    (q : Policy)
    → Memᴰ q []
    → Concerns (subject_of req) (resource_of req) req.action q
    → q.effect ≡ PolicyEffect.allow
nothing_denied q m c = absurd (Memᴰ.not-nil m)

create_policy_allows_example : (check_access uuids serde req granted).allowed ≡ true
create_policy_allows_example =
    create_policy_allows uuids serde db_text empty_svc granted empty_svc-IsSynced 1 2 grant (2 ∷ [])
      grant_created req refl (inr refl, inr (inl refl), inr refl) nothing_denied

create_policy-IsCreated_example : IsCreated uuids db_text granted granted-IsSynced 3 4 ban banned
create_policy-IsCreated_example =
    create_policy-IsCreated uuids db_text granted granted-IsSynced 3 4 ban (4 ∷ []) banned
      ban_created
