-- ===== src/Central/AuditService.antt =====
-- crates/elan-central/src/grpc/audit_svc.rs. The broadcast channel is the list of what was sent on it.
pub mod Replay
use elan.Common.{
  ℕ, zero, suc, ◌+◌, ◌++◌, [], ◌∷◌, List, Bool, true, false, Option, none, some, Text, Result, ok,
  err, map, map_err, none_if_empty, unwrap_or_default, if◌then◌else◌,
}
use elan.Domain.Errors.{Status}
use elan.Domain.Proto.{AuditEventProto}
use elan.Central.Database.{DbError, to_status}
use elan.Central.IamStore.{IamStore, AuditRow}
use elan.Central.IamStore.AuditLog
use elan.Central.IamStore.AuditLog.{is_asked, get_recent_audit_events, store_audit_event}

pub record AuditSvc : Type 0 where
  pub store : IamStore
  pub sent : List AuditEventProto

abbrev pub proto_of_row : AuditRow → AuditEventProto
proto_of_row r = record {
  event_id = r.id;
  event_type = r.event_type;
  occurred_at = none;
  source_service = r.source_service;
  user_id = r.user_id;
  session_id = unwrap_or_default r.session_id;
  payload_json = r.payload_json;
}

-- What comes of a `tx.send(..).await`: the channel with the event, the receiver is gone, or the
-- call waits for ever.
pub data Sending (C : Type 0) : Type 0 where
  delivered : C → Sending C
  disconnected : Sending C
  waiting : Sending C

-- The calls of `tokio::sync::mpsc`, on a channel `C` whose receiver is not read meanwhile.
pub record ChannelApi (C : Type 0) : Type 0 where
  pub channel : ℕ → C
  pub send : AuditEventProto → C → Sending C

module _ {C : Type 0} (api : ChannelApi C) where
  -- The `for` loop over the recent events. `none` is a call that does not return.
  unfoldable pub replay : List AuditEventProto → C → Option C
  replay [] tx = some tx
  replay (e ∷ es) tx = elim (api.send e tx) [
    | delivered later ↦ replay es later
    | disconnected ↦ some tx
    | waiting ↦ none
  ]

  -- The channel whose receiver `stream_audit_events` returns. `since` is the printed time of the
  -- request.
  unfoldable pub stream_audit_events : Option Text → List Text → AuditSvc → Option C
  stream_audit_events since event_types svc =
      replay (map proto_of_row (get_recent_audit_events since event_types 100 svc.store))
        (api.channel 64)

-- What the broadcast receiver yields.
pub data Received : Type 0 where
  event : AuditEventProto → Received
  lagged : ℕ → Received
  closed : Received

-- The task of the stream: the events of the asked types, until the channel is closed.
unfoldable pub forward : List Text → List Received → List AuditEventProto
forward event_types [] = []
forward event_types (Received.closed ∷ rest) = []
forward event_types (Received.lagged n ∷ rest) = forward event_types rest
forward event_types (Received.event e ∷ rest) =
    let later = forward event_types rest in
    if is_asked event_types e.event_type then e ∷ later else later

module _ (db_text : DbError → Text) where
  published :
      AuditEventProto
      → AuditSvc
      → Result DbError (Unit {0}) × IamStore
      → Result Status Bool × AuditSvc
  published e svc (ok _, store) = (ok true, record { store = store; sent = svc.sent ++ e ∷ [] })
  published e svc (err x, store) = (err (to_status db_text x), record svc { store = store })

  -- `now` is the printed time of the call.
  unfoldable pub publish_event : Text → AuditEventProto → AuditSvc → Result Status Bool × AuditSvc
  unfolding published
  publish_event now e svc = published e svc (
      store_audit_event e.event_id e.event_type now e.source_service e.user_id
        (none_if_empty e.session_id) e.payload_json svc.store)
