-- ===== src/Domain/Proto.antt =====
-- The messages of proto/*.proto, as the Rust code of the services reads and builds them.
use elan.Common.{ℕ, List, Bool, Text, Option}
use elan.Common.Signed.{ℤ}

pub record PolicyProto : Type 0 where
  pub policy_id : Text
  pub subject_name : Text
  pub subject_type : Text
  pub resource_pattern : Text
  pub action : Text
  pub effect : ℤ
  pub row_filter : Text
  pub column_mask_json : Text
  pub priority : ℤ

pub record AccessRequest : Type 0 where
  pub user_id : Text
  pub groups : List Text
  pub namespace : Text
  pub dataset : Text
  pub action : Text

pub record AccessDecisionProto : Type 0 where
  pub allowed : Bool
  pub reason : Text
  pub row_filter : Text
  pub column_mask_json : Text

pub record DatasetProto : Type 0 where
  pub dataset_id : Text
  pub name : Text
  pub namespace : Text
  pub source_type : Text
  pub coordinator_id : Text
  pub executor_endpoint : Text
  pub arrow_schema_ipc : List ℕ
  pub metadata_json : Text

pub record RegisterRequest : Type 0 where
  pub coordinator_id : Text
  pub environment : Text
  pub hostname : Text
  pub executor_endpoint : Text

pub record DatasetRegistration : Type 0 where
  pub coordinator_id : Text
  pub dataset_id : Text
  pub name : Text
  pub namespace : Text
  pub source_type : Text
  pub arrow_schema_ipc : List ℕ
  pub metadata_json : Text

pub record AuditEventProto : Type 0 where
  pub event_id : Text
  pub event_type : Text
  pub occurred_at : Option ℕ
  pub source_service : Text
  pub user_id : Text
  pub session_id : Text
  pub payload_json : Text
