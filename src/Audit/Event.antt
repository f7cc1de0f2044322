-- ===== src/Audit/Event.antt =====
-- crates/elan-audit/src/event.rs
use elan.Common.{ℕ, ◌++◌, List, Option, Text, codes}
use elan.Common.External.{Uuid}

pub record AuditSubject : Type 0 where
  pub user_id : Text
  pub groups : List Text
  pub session_id : Option Text

pub record QuerySubmittedPayload : Type 0 where
  pub query_id : Uuid
  pub sql : Text
  pub resolved_tables : List Text
  pub executors : List (Text × Text)

pub record QueryCompletedPayload : Type 0 where
  pub query_id : Uuid
  pub duration_ms : ℕ
  pub rows_returned : ℕ
  pub bytes_scanned : ℕ

pub record QueryFailedPayload : Type 0 where
  pub query_id : Uuid
  pub duration_ms : ℕ
  pub error_kind : Text
  pub error_msg : Text

pub record AccessDeniedPayload : Type 0 where
  pub query_id : Uuid
  pub namespace : Text
  pub dataset : Text
  pub action : Text
  pub reason : Text

pub record CoordinatorRegisteredPayload : Type 0 where
  pub coordinator_id : Text
  pub environment : Text
  pub hostname : Text

pub record DatasetRegisteredPayload : Type 0 where
  pub dataset_id : Text
  pub name : Text
  pub namespace : Text
  pub source_type : Text
  pub coordinator_id : Text

pub data AuditPayload : Type 0 where
  query_submitted : QuerySubmittedPayload → AuditPayload
  query_completed : QueryCompletedPayload → AuditPayload
  query_failed : QueryFailedPayload → AuditPayload
  access_denied : AccessDeniedPayload → AuditPayload
  coordinator_registered : CoordinatorRegisteredPayload → AuditPayload
  dataset_registered : DatasetRegisteredPayload → AuditPayload

pub record AuditEvent : Type 0 where
  pub schema_version : ℕ
  pub event_id : Uuid
  pub occurred_at : ℕ
  pub source_service : Text
  pub source_instance : Text
  pub subject : AuditSubject
  pub payload : AuditPayload

-- `AuditEvent::new`, with the fresh identifier and the time as arguments.
unfoldable pub new_event : Uuid → ℕ → Text → Text → AuditSubject → AuditPayload → AuditEvent
new_event id now source_service source_instance subject payload = record {
  schema_version = 1;
  event_id = id;
  occurred_at = now;
  source_service = source_service;
  source_instance = source_instance;
  subject = subject;
  payload = payload;
}

type_name : AuditPayload → Text
type_name (AuditPayload.query_submitted p) = codes "QuerySubmitted"
type_name (AuditPayload.query_completed p) = codes "QueryCompleted"
type_name (AuditPayload.query_failed p) = codes "QueryFailed"
type_name (AuditPayload.access_denied p) = codes "AccessDenied"
type_name (AuditPayload.coordinator_registered p) = codes "CoordinatorRegistered"
type_name (AuditPayload.dataset_registered p) = codes "DatasetRegistered"

unfoldable pub event_type : AuditEvent → Text
unfolding type_name
event_type e = type_name e.payload

topic_suffix : AuditPayload → Text
topic_suffix (AuditPayload.query_submitted p) = codes "query.submitted"
topic_suffix (AuditPayload.query_completed p) = codes "query.completed"
topic_suffix (AuditPayload.query_failed p) = codes "query.failed"
topic_suffix (AuditPayload.access_denied p) = codes "access.denied"
topic_suffix (AuditPayload.coordinator_registered p) = codes "coordinator.registered"
topic_suffix (AuditPayload.dataset_registered p) = codes "dataset.registered"

unfoldable pub kafka_topic : AuditEvent → Text
unfolding topic_suffix
kafka_topic e = codes "elan.audit." ++ topic_suffix e.payload
