-- ===== src/Examples/Audit.antt =====
-- Examples for the audit service of elan-central.
use elan.Common.{
  Result, Text, ℕ, zero, suc, ◌≡◌, refl, ◌++◌, [], ◌∷◌, List, ◌⊎◌, none, some, codes, ok, map,
  length, leb, if◌then◌else◌, arith,
}
use mathlib.Core.Option.{map as option_map}
use elan.Domain.Proto.{AuditEventProto}
use elan.Central.IamStore.{AuditRow}
use elan.Central.IamStore.AuditLog.{get_recent_audit_events}
use elan.Central.AuditService.{
  AuditSvc, ChannelApi, Sending, delivered, waiting, proto_of_row, stream_audit_events,
}
use elan.Central.AuditService.Replay.{IsBounded, stream_audit_events_replay}
use elan.Audit.Event.{AuditEvent, AuditPayload}
use elan.Audit.Sink.{central_message}
use elan.Audit.Relayed.{IsRelayed, IsRefused, publish_central-publish_event}
use elan.Examples.Codecs.{uuids}
use elan.Examples.Central.{db_text}

-- A channel by the slots that are free and the events that wait in it.
abbrev Channel : Type 0
Channel = ℕ × List AuditEventProto

abbrev send : AuditEventProto → Channel → Sending Channel
send e (zero, es) = waiting
send e (suc n, es) = delivered (n, es ++ e ∷ [])

abbrev api : ChannelApi Channel
api = record { channel = λ n. (n, []); send = send }

send_full : (e : AuditEventProto) (c : Channel) → c.0 ≡ 0 → send e c ≡ waiting
send_full e (zero, es) h = refl
send_full e (suc n, es) h = absurd (omega (arith, h))

send_free :
    (e : AuditEventProto) (c : Channel) (n : ℕ)
    → c.0 ≡ suc n
    → (d : Channel) × (send e c ≡ delivered d) × (d.1 ≡ c.1 ++ e ∷ []) × (d.0 ≡ n)
send_free e (zero, es) n h = absurd (omega (arith, h))
send_free e (suc m, es) n h = ((m, es ++ e ∷ []), refl, refl, omega (arith, h))

abbrev bounded : IsBounded api
bounded = record {
  buffered = λ c. c.1;
  room = λ c. c.0;
  buffered-channel = λ n. refl;
  room-channel = λ n. refl;
  room-full = send_full;
  send-room = send_free;
}

abbrev row : AuditRow
row = record {
  id = codes "e1";
  event_type = codes "QuerySubmitted";
  occurred_at = codes "2026-01-01T00:00:00+00:00";
  source_service = codes "elan-query";
  user_id = codes "alice";
  session_id = none;
  payload_json = codes "{}";
}

abbrev svc : AuditSvc
svc = record {
  store = record { subjects = []; members = []; policies = []; audit_events = row ∷ [] };
  sent = [];
}

stream_audit_events_replay_example :
    option_map (λ (c : Channel). c.1) (stream_audit_events api none [] svc) ≡ (
      if leb (length (get_recent_audit_events none [] 100 svc.store)) 64
      then some (map proto_of_row (get_recent_audit_events none [] 100 svc.store))
      else none)
stream_audit_events_replay_example = stream_audit_events_replay api bounded none [] svc

abbrev event : AuditEventProto
event = record (proto_of_row row) { event_id = codes "e2" }

abbrev failed : AuditEvent
failed = record {
  schema_version = 1;
  event_id = 5;
  occurred_at = 9;
  source_service = codes "elan-query";
  source_instance = codes "q1";
  subject = record { user_id = codes "alice"; groups = []; session_id = none };
  payload = AuditPayload.query_failed (record {
    query_id = 5;
    duration_ms = 3;
    error_kind = codes "PlanError";
    error_msg = codes "no table";
  });
}

abbrev print : AuditPayload → Result Text Text
print p = ok (codes "{}")

publish_central-publish_event_example :
    (m : AuditEventProto) × (central_message uuids print failed ≡ ok m)
    × (IsRelayed uuids print db_text (λ status. status.message) (codes "now") svc failed m
        ⊎ IsRefused uuids print db_text (λ status. status.message) (codes "now") svc failed m)
publish_central-publish_event_example =
    publish_central-publish_event uuids print db_text (λ status. status.message) (codes "now") svc
      failed (codes "{}") refl
