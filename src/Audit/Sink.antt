-- ===== src/Audit/Sink.antt =====
-- crates/elan-audit/src/central.rs, kafka.rs and sink.rs: a sink is what it hands over for an event.
use elan.Common.{none, Text, Result, ok, ◌>>=◌, map_err, unwrap_or_default}
use elan.Common.External.{UuidCodec}
use elan.Domain.Errors.{ElanError, Status, internal}
use elan.Domain.Proto.{AuditEventProto}
use elan.Audit.Event.{AuditEvent, AuditPayload, event_type, kafka_topic}

module _ (uuids : UuidCodec) (payload_to_string : AuditPayload → Result Text Text) where
  -- The message that `CentralAuditSink::publish` sends.
  unfoldable pub central_message : AuditEvent → Result ElanError AuditEventProto
  central_message event =
      map_err ElanError.serde (payload_to_string event.payload) >>= λ payload_json. ok (record {
        event_id = uuids.to_string event.event_id;
        event_type = event_type event;
        occurred_at = none;
        source_service = event.source_service;
        user_id = event.subject.user_id;
        session_id = unwrap_or_default event.subject.session_id;
        payload_json = payload_json;
      })

  -- `CentralAuditSink::publish`, over the `publish_event` call and the text of its error.
  unfoldable pub publish_central :
      (Status → Text)
      → (AuditEventProto → Result Status (Unit {0}))
      → AuditEvent
      → Result ElanError (Unit {0})
  publish_central status_to_string call event = central_message event >>= λ proto.
      map_err (λ e. ElanError.grpc (record { code = internal; message = status_to_string e }))
        (call proto)

module _ (uuids : UuidCodec) (event_to_string : AuditEvent → Result Text Text) where
  pub record KafkaRecord : Type 0 where
    pub topic : Text
    pub key : Text
    pub payload : Text

  unfoldable pub kafka_record : AuditEvent → Result ElanError KafkaRecord
  kafka_record event = map_err ElanError.serde (event_to_string event) >>= λ payload. ok (record {
    topic = kafka_topic event;
    key = uuids.to_string event.event_id;
    payload = payload;
  })

  -- `KafkaAuditSink::publish`
  unfoldable pub publish_kafka :
      (KafkaRecord → Result Text (Unit {0})) → AuditEvent → Result ElanError (Unit {0})
  publish_kafka send event = kafka_record event >>= λ r. map_err ElanError.kafka (send r)

-- `NoOpAuditSink::publish`
unfoldable pub publish_nothing : AuditEvent → Result ElanError (Unit {0})
publish_nothing event = ok tt
