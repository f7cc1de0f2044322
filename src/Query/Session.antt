-- ===== src/Query/Session.antt =====
-- crates/elan-query/src/session.rs. The streams of the central services are the lists of their
-- items; `new_v4 n` is the identifier drawn at the item of index n.
pub mod Policies
pub mod Datasets
pub mod Loaded
pub mod Schemas
pub mod Distinct
use elan.Common.{
  ℕ, ◌+◌, [], ◌∷◌, List, Option, none, some, Text, codes, text_eq, Result, ok, err, ◌>>=◌, map,
  map_err, none_if_empty, if◌then◌else◌, ◌++◌,
}
use elan.Common.External.{Uuid, UuidCodec, Serde}
use elan.Common.Signed.{ℤ, is_one}
use elan.Domain.Errors.{Status}
use elan.Domain.Proto.{PolicyProto, DatasetProto}
use elan.Domain.Catalog.{DatasetInfo}
use elan.Iam.Types.{Subject, Policy, PolicyEffect, SubjectType, user, group}
use elan.Iam.Engine.{IamEngine, snapshot_engine}
use elan.Iam.Optimizer.{IamFilterRule}
use elan.Query.OptimizerRule.{optimizer_rule}
use elan.Query.Catalog.Table.{ArrowIpc}
use elan.Query.Catalog.CatalogProvider.{ElanCatalogProvider}
use elan.Query.Catalog.Provider.{
  ElanSchemaProvider, TableError, remote, dataset_of_proto, new_schema_provider, insert, get,
}

abbrev subject_type_of_text : Text → SubjectType
subject_type_of_text t = if text_eq t (codes "group") then group else user

abbrev effect_of_number : ℤ → PolicyEffect
effect_of_number n = if is_one n then PolicyEffect.deny else PolicyEffect.allow

abbrev parsed_or : Option Uuid → Uuid → Uuid
parsed_or none u = u
parsed_or (some v) u = v

abbrev pub policy_of_proto : UuidCodec → Uuid → PolicyProto → Policy
policy_of_proto uuids fresh proto = record {
  id = parsed_or (uuids.parse_str proto.policy_id) fresh;
  subject_name = proto.subject_name;
  subject_type = subject_type_of_text proto.subject_type;
  resource_pattern = proto.resource_pattern;
  action = proto.action;
  effect = effect_of_number proto.effect;
  row_filter = none_if_empty proto.row_filter;
  column_mask_json = none_if_empty proto.column_mask_json;
  priority = proto.priority;
}

module _ (uuids : UuidCodec) (new_v4 : ℕ → Uuid) where
  policies_of_stream : ℕ → List (Result Status PolicyProto) → Result Status (List Policy)
  policies_of_stream n [] = ok []
  policies_of_stream n (item ∷ stream) = item >>= λ proto.
      policies_of_stream (n + 1) stream >>= λ policies.
      ok (policy_of_proto uuids (new_v4 n) proto ∷ policies)

  -- The call of `list_policies` with an empty subject name, and the loop over its stream.
  unfoldable pub load_iam_policies :
      Result Status (List (Result Status PolicyProto)) → Result Status (List Policy)
  unfolding policies_of_stream
  load_iam_policies response = response >>= policies_of_stream 0

-- `by_ns.entry(ns).or_default().push(ds)`
abbrev pub push : DatasetInfo → List (Text × List DatasetInfo) → List (Text × List DatasetInfo)
push ds [] = (ds.namespace, ds ∷ []) ∷ []
push ds ((ns, l) ∷ by_ns) =
    if text_eq ns ds.namespace then (ns, l ++ ds ∷ []) ∷ by_ns else (ns, l) ∷ push ds by_ns

module _ (uuids : UuidCodec) (serde : Serde) where
  pub grouped :
      List (Text × List DatasetInfo)
      → List (Result Status DatasetProto)
      → Result TableError (List (Text × List DatasetInfo))
  grouped by_ns [] = ok by_ns
  grouped by_ns (item ∷ stream) = map_err remote item >>= λ proto.
      dataset_of_proto uuids serde proto >>= λ ds. grouped (push ds by_ns) stream

  unfoldable pub load_datasets :
      Result Status (List (Result Status DatasetProto))
      → Result TableError (List (Text × List DatasetInfo))
  unfolding grouped
  load_datasets response = map_err remote response >>= grouped []

-- The state behind the factory's locks. The engine is the snapshot that is taken at the start.
pub record SessionFactory : Type 0 where
  pub iam_engine : List Policy
  pub datasets_by_ns : List (Text × List DatasetInfo)

-- `SessionFactory::new`: no datasets end it, but missing policies are none.
policies_or_none : Result Status (List Policy) → List Policy
policies_or_none (ok policies) = policies
policies_or_none (err e) = []

unfoldable pub new_factory :
    Result TableError (List (Text × List DatasetInfo))
    → Result Status (List Policy)
    → Result TableError SessionFactory
unfolding policies_or_none
new_factory datasets policies = datasets >>= λ datasets_by_ns.
    ok (record { iam_engine = policies_or_none policies; datasets_by_ns = datasets_by_ns })

-- One round of the background task.
unfoldable pub refresh :
    Result TableError (List (Text × List DatasetInfo)) → SessionFactory → SessionFactory
refresh (ok fresh) factory = record factory { datasets_by_ns = fresh }
refresh (err e) factory = factory

-- The parts of a `SessionContext` that elan sets: the catalog "elan" and the rule.
pub record Session : Type 0 where
  pub catalog : ElanCatalogProvider
  pub rule : IamFilterRule

module _ (uuids : UuidCodec) (serde : Serde) (ipc : ArrowIpc) where
  schemas_of :
      IamEngine
      → Subject
      → List (Text × List DatasetInfo)
      → List (Text × ElanSchemaProvider)
      → List (Text × ElanSchemaProvider)
  schemas_of engine subject [] schemas = schemas
  schemas_of engine subject ((ns, ds_list) ∷ rest) schemas =
      schemas_of engine subject rest
        (insert ns (new_schema_provider ipc ns ds_list engine subject) schemas)

  unfoldable pub build_for_user : Subject → SessionFactory → Session
  unfolding schemas_of
  build_for_user subject factory =
      let engine = snapshot_engine uuids serde factory.iam_engine in
      record {
        catalog = record { schemas = schemas_of engine subject factory.datasets_by_ns [] };
        rule = optimizer_rule engine subject;
      }
