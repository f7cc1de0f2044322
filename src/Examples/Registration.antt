-- ===== src/Examples/Registration.antt =====
-- Examples for a coordinator that registers, and for a policy that is deleted.
use mathlib.Core.List.Memᴰ
use elan.Common.{
  ℕ, ◌+◌, ◌||◌, ◌&&◌, contains, err, subst, sym, ◌≡◌, ◌≢◌, refl, [], ◌∷◌, List, Memᴰ, ◌↔◌, All,
  Bool, true, false, Option, none, some, Text, codes, Result, ok,
}
use elan.Common.External.{Uuid}
use elan.Domain.Errors.{Status, internal}
use elan.Iam.Types.{Policy, PolicyEffect, SubjectType}
use elan.Central.CatalogStore.{DatasetRow, is_live}
use elan.Central.CatalogStore.Others.{AreReadable}
use elan.Central.CoordinatorService.{heartbeat}
use elan.Central.CoordinatorService.Heartbeats.{heard, is_registered, heartbeat-is_live}
use elan.Central.IamService.{delete_policy}
use elan.Central.IamService.Deletion.{IsStoredAs, delete_policy_iff}
use elan.Central.IamStore.{PolicyRow}
use elan.Coordinator.Config
use elan.Coordinator.Config.{DatasetConfig, CoordinatorConfig, parquet_source}
use elan.Coordinator.Registration.Published.{AreDistinct}
use elan.Examples.Catalog.{cfg, s}
use elan.Examples.Central
use elan.Examples.Central.{granted, granted-IsSynced}
use elan.Examples.Codecs.{uuids}

abbrev pub prices : DatasetConfig
prices = DatasetConfig.parquet_source (record {
  name = codes "prices";
  namespace = codes "finance";
  path = codes "/data/prices.parquet";
  description = none;
})

abbrev pub coordinator : CoordinatorConfig
coordinator = record {
  coordinator = record { id = codes "c1"; environment = codes "dev"; hostname = codes "host" };
  central_endpoint = codes "http://central:50051";
  executor_endpoint = codes "10.0.0.9:50055";
  http_addr = codes "0.0.0.0:8081";
  object_store = none;
  datasets = cfg ∷ prices ∷ [];
}

abbrev pub status_text : Status → Text
status_text e = e.message

abbrev pub new_v4 : ℕ → Uuid
new_v4 n = 20 + n

pub stored_readable : AreReadable uuids s.datasets
stored_readable d m = (
  7,
  subst (λ (z : DatasetRow). uuids.parse_str z.id ≡ some 7) (sym (Memᴰ.eq_of_singleton m)) refl,
)

pub distinct : AreDistinct coordinator.datasets
unfolding Config.name Config.namespace
distinct = ((refl, tt), (tt, tt))

abbrev alice_grant : Policy
alice_grant = record {
  id = 2;
  subject_name = codes "alice";
  subject_type = SubjectType.user;
  resource_pattern = codes "finance.*";
  action = codes "SELECT";
  effect = PolicyEffect.allow;
  row_filter = none;
  column_mask_json = none;
  priority = elan.Common.Signed.pos 5;
}

delete_policy_iff_example :
    ((delete_policy uuids Central.db_text (2 ∷ []) granted).0 ≡ ok tt)
    × (Memᴰ alice_grant (delete_policy uuids Central.db_text (2 ∷ []) granted).1.engine ↔ (
        (p : PolicyRow) × Memᴰ p granted.store.policies
        × (p.id ≢ 2 ∷ [])
        × IsStoredAs uuids granted.store alice_grant p))
delete_policy_iff_example =
    delete_policy_iff uuids Central.db_text granted granted-IsSynced (2 ∷ []) alice_grant

-- A heartbeat of the coordinator and one of a stranger, and then an error.
abbrev beats : List (Result Status Text)
beats = ok (codes "c1") ∷ ok (codes "c9") ∷ err (record { code = internal; message = [] }) ∷ []

heartbeat-is_live_example :
    ((heartbeat (λ n. n) 0 beats s).0 ≡ true ∷ true ∷ [])
    × (is_live (heartbeat (λ n. n) 0 beats s).1.coordinators (codes "c9") ≡ (
        is_live s.coordinators (codes "c9")
        || (contains (heard beats) (codes "c9") && is_registered (codes "c9") s.coordinators)))
heartbeat-is_live_example = heartbeat-is_live (λ n. n) 0 beats s (codes "c9")
