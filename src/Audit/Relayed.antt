-- ===== src/Audit/Relayed.antt =====
-- The way of an event from the central sink (crates/elan-audit/src/central.rs) through
-- `publish_event` (crates/elan-central/src/grpc/audit_svc.rs) to the subscribers and the store.
use elan.Common.{
  ◌≡◌, refl, ap, ◌++◌, [], ◌∷◌, List, Bool, true, none, Text, ◌⊎◌, inl, inr, Result, ok, err, ◌>>=◌,
  any, text_eq, if◌then◌else◌, unwrap_or_default,
}
use elan.Common.External.{UuidCodec}
use elan.Domain.Errors.{ElanError, Status, internal}
use elan.Domain.Proto.{AuditEventProto}
use elan.Audit.Event.{AuditEvent, AuditPayload, event_type}
use elan.Audit.Sink.{central_message, publish_central}
use elan.Central.Database.{DbError, to_status, unique_violation}
use elan.Central.IamStore.{AuditRow}
use elan.Central.IamStore.AuditLog.{is_asked}
use elan.Central.AuditService.{AuditSvc, Received, proto_of_row, publish_event, forward}
use elan.Central.AuditService.Replay.{publish_event_lem}

module _ (uuids : UuidCodec) (payload_to_string : AuditPayload → Result Text Text)
    (db_text : DbError → Text) (status_to_string : Status → Text) (now : Text)
    (svc : AuditSvc) where
  -- The call of the sink, answered by the service.
  abbrev pub call : AuditEventProto → Result Status (Unit {0})
  call e = (publish_event db_text now e svc).0 >>= λ accepted. ok tt

  abbrev pub after : AuditEventProto → AuditSvc
  after e = (publish_event db_text now e svc).1

  -- The message of an event whose payload is printed as a text.
  abbrev message : AuditEvent → Text → AuditEventProto
  message event payload = record {
    event_id = uuids.to_string event.event_id;
    event_type = event_type event;
    occurred_at = none;
    source_service = event.source_service;
    user_id = event.subject.user_id;
    session_id = unwrap_or_default event.subject.session_id;
    payload_json = payload;
  }

  -- The event is accepted: it is sent to the live subscribers, of whom those get it that ask for
  -- its type, and it is kept in a row that a replay sends as the same message.
  pub record IsRelayed (event : AuditEvent) (m : AuditEventProto) : Type 0 where
    pub published : publish_central uuids payload_to_string status_to_string call event ≡ ok tt
    pub sent : (after m).sent ≡ svc.sent ++ m ∷ []
    pub received :
        (event_types : List Text)
        → forward event_types (Received.event m ∷ [])
          ≡ (if is_asked event_types (event_type event) then m ∷ [] else [])
    pub stored :
        (r : AuditRow) × (proto_of_row r ≡ m)
        × ((after m).store.audit_events ≡ svc.store.audit_events ++ r ∷ [])

  -- The identifier is used: the sink reports the refusal, and the service is left as it was.
  pub record IsRefused (event : AuditEvent) (m : AuditEventProto) : Type 0 where
    pub used :
        any (λ (r : AuditRow). text_eq r.id (uuids.to_string event.event_id)) svc.store.audit_events
        ≡ true
    pub reported :
        publish_central uuids payload_to_string status_to_string call event
        ≡ err (
            ElanError.grpc (record {
              code = internal;
              message = status_to_string (to_status db_text unique_violation);
            }))
    pub kept : after m ≡ svc

  -- An event whose payload can be printed is either sent to the live subscribers that ask for its
  -- type and stored for the replay, or refused for a used identifier, with an error of the sink and
  -- with nothing sent or stored.
  pub publish_central-publish_event :
      (event : AuditEvent) (payload : Text)
      → payload_to_string event.payload ≡ ok payload
      → (m : AuditEventProto) × (central_message uuids payload_to_string event ≡ ok m)
        × (IsRelayed event m ⊎ IsRefused event m)
  unfolding central_message publish_central forward
  publish_central-publish_event event payload e =
      let m = message event payload in
      (
        m,
        rw e refl,
        elim (publish_event_lem db_text now m svc refl) [
          | inl (r, same, done) ↦ inl (record {
            published = rw (e, done) refl;
            sent = ap (λ (z : Result Status Bool × AuditSvc). z.1.sent) done;
            received = λ event_types. refl;
            stored =
                (r, same, ap (λ (z : Result Status Bool × AuditSvc). z.1.store.audit_events) done);
          })
          | inr (used, done) ↦ inr (record {
            used = used;
            reported = rw (e, done) refl;
            kept = ap (λ (z : Result Status Bool × AuditSvc). z.1) done;
          })
        ],
      )
