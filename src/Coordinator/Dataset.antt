-- ===== src/Coordinator/Dataset.antt =====
-- crates/elan-coordinator/src/dataset.rs. The probe is a parameter; Coordinator/Dataset/Inference has the
-- one of the code.
pub mod Inference
use elan.Common.{
  ℕ, ◌%◌, ◌^◌, [], ◌∷◌, List, Bool, true, Option, none, some, Text, codes, Result, ok, ◌>>=◌,
}
use elan.Common.External.{Uuid, UuidCodec, Serde}
use elan.Domain.Arrow.{Schema, utf8}
use elan.Domain.Proto.{DatasetRegistration}
use elan.Coordinator.Config
use elan.Coordinator.Config.{DatasetConfig}

pub record Probe : Type 0 where
  pub csv_schema : Text → Bool → ℕ → Option Schema
  pub parquet_schema : Text → Option Schema
  pub write_schema : Schema → Result Text (List ℕ)

abbrev pub placeholder_schema : Schema
placeholder_schema = record { name = codes "_placeholder"; data_type = utf8; nullable = true } ∷ []

abbrev or_placeholder : Option Schema → Schema
or_placeholder none = placeholder_schema
or_placeholder (some s) = s

module _ (probe : Probe) where
  -- `*delimiter as u8`
  unfoldable pub infer_schema : DatasetConfig → Schema
  infer_schema (DatasetConfig.csv_source c) =
      or_placeholder (probe.csv_schema c.path c.has_header (c.delimiter % 2 ^ 8))
  infer_schema (DatasetConfig.parquet_source c) = or_placeholder (probe.parquet_schema c.path)
  infer_schema (DatasetConfig.postgres_source c) = placeholder_schema
  infer_schema (DatasetConfig.delta_source c) = placeholder_schema

  unfoldable pub to_registration :
      UuidCodec → Serde → Uuid → DatasetConfig → Text → Result Text DatasetRegistration
  to_registration uuids serde fresh cfg coordinator_id =
      probe.write_schema (infer_schema cfg) >>= λ schema_ipc. ok (record {
        coordinator_id = coordinator_id;
        dataset_id = uuids.to_string fresh;
        name = Config.name cfg;
        namespace = Config.namespace cfg;
        source_type = Config.source_type cfg;
        arrow_schema_ipc = schema_ipc;
        metadata_json = serde.to_string (Config.metadata_json cfg);
      })
