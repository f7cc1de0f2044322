-- ===== src/Coordinator/Dataset/Inference.antt =====
-- The schema probe of crates/elan-coordinator/src/dataset.rs over a session of DataFusion.
use elan.Common.{ℕ, List, Bool, Option, none, some, Text, codes, Result, ok, err, ◌>>=◌}
use elan.Domain.Arrow.{Schema}
use elan.Coordinator.Dataset.{Probe}

-- The calls of DataFusion and of the IPC writer. A session is a value of `C`, a provider one of
-- `P`, and a writer with what it wrote one of `W`.
pub record ProbeApi (C P W : Type 0) : Type 0 where
  pub new : C
  pub register_csv : Text → Text → Bool → ℕ → C → Result Text C
  pub register_parquet : Text → Text → C → Result Text C
  pub table_provider : Text → C → Result Text P
  pub schema : P → Schema
  pub new_writer : Schema → Result Text W
  pub finish : W → Result Text (List ℕ)

-- An error is only logged.
inferred : Result Text Schema → Option Schema
inferred (ok s) = some s
inferred (err e) = none

module _ {C P W : Type 0} (api : ProbeApi C P W) where
  unfoldable pub infer_csv_schema : Text → Bool → ℕ → Result Text Schema
  infer_csv_schema path has_header delimiter = do
    ctx ← api.register_csv (codes "_schema_probe") path has_header delimiter api.new
    provider ← api.table_provider (codes "_schema_probe") ctx
    ok (api.schema provider)

  unfoldable pub infer_parquet_schema : Text → Result Text Schema
  infer_parquet_schema path = do
    ctx ← api.register_parquet (codes "_schema_probe") path api.new
    provider ← api.table_provider (codes "_schema_probe") ctx
    ok (api.schema provider)

  unfoldable pub serialize_schema : Schema → Result Text (List ℕ)
  serialize_schema schema = api.new_writer schema >>= api.finish

  -- The probe that `to_registration` uses.
  unfoldable pub probe : Probe
  unfolding inferred
  probe = record {
    csv_schema = λ path has_header delimiter. inferred (infer_csv_schema path has_header delimiter);
    parquet_schema = λ path. inferred (infer_parquet_schema path);
    write_schema = serialize_schema;
  }
