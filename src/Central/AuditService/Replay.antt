-- ===== src/Central/AuditService/Replay.antt =====
-- When the replay of stored events comes to an end, and what is published.
use elan.Common.{
  length-map, ℕ, zero, suc, ◌≤◌, ◌<◌, sym, ◌≡◌, refl, ap, ◌++◌, [], ◌∷◌, List, true, false, Option,
  none, some, Text, ◌⊎◌, inl, inr, ok, err, map, length, arith, leb, ◌∙◌, append-nil, append_assoc,
  Bool-cases, any, text_eq, none_if_empty, unwrap_or_default, if◌then◌else◌,
}
use mathlib.Core.Option.{map as option_map}
use elan.Domain.Proto.{AuditEventProto}
use elan.Central.Database.{DbError, to_status, unique_violation}
use elan.Central.IamStore.{AuditRow}
use elan.Central.IamStore.AuditLog.{get_recent_audit_events, store_audit_event}
use elan.Central.AuditService.{
  AuditSvc, ChannelApi, delivered, waiting, proto_of_row, replay, stream_audit_events,
  publish_event, published,
}

≤_or_< : (m n : ℕ) → (m ≤ n) ⊎ (n < m)
≤_or_< m n = ground arith

leb-true : {m n : ℕ} → m ≤ n → leb m n ≡ true
leb-true h = ground (arith, h)

leb-false : {m n : ℕ} → n < m → leb m n ≡ false
leb-false h = ground (arith, h)

-- The documented behaviour of a bounded channel while nobody reads and its receiver is kept: it
-- buffers what is sent, up to its capacity, and a send into a full one waits.
pub record IsBounded {C : Type 0} (api : ChannelApi C) : Type 0 where
  pub buffered : C → List AuditEventProto
  pub room : C → ℕ
  pub buffered-channel : (n : ℕ) → buffered (api.channel n) ≡ []
  pub room-channel : (n : ℕ) → room (api.channel n) ≡ n
  pub room-full : (e : AuditEventProto) (c : C) → room c ≡ 0 → api.send e c ≡ waiting
  pub send-room :
      (e : AuditEventProto) (c : C) (n : ℕ)
      → room c ≡ suc n
      → (d : C) × (api.send e c ≡ delivered d) × (buffered d ≡ buffered c ++ e ∷ []) × (room d ≡ n)

module _ {C : Type 0} (api : ChannelApi C) (bounded : IsBounded api) where
  replay_fits :
      (es : List AuditEventProto) (n : ℕ) (c : C)
      → bounded.room c ≡ n
      → length es ≤ n
      → option_map bounded.buffered (replay api es c) ≡ some (bounded.buffered c ++ es)
  unfolding replay
  replay_fits [] n c h l = ap some (sym (append-nil (bounded.buffered c)))
  replay_fits (e ∷ es) zero c h l = absurd (omega (arith, l))
  replay_fits (e ∷ es) (suc n) c h l =
      let (d, sent, b, r) = bounded.send-room e c n h in
      let rest = replay_fits es n d r (omega (arith, l)) in
      rw (replay, option_map, sent)
        (rest
          ∙ ap some (
              ap (λ (x : List AuditEventProto). x ++ es) b
              ∙ append_assoc (bounded.buffered c) (e ∷ []) es))

  replay_blocks :
      (es : List AuditEventProto) (n : ℕ) (c : C)
      → bounded.room c ≡ n
      → n < length es
      → option_map bounded.buffered (replay api es c) ≡ none
  unfolding replay
  replay_blocks [] n c h l = absurd (omega (arith, l))
  replay_blocks (e ∷ es) zero c h l = rw (replay, option_map, bounded.room-full e c h) refl
  replay_blocks (e ∷ es) (suc n) c h l =
      let (d, sent, b, r) = bounded.send-room e c n h in
      let rest = replay_blocks es n d r (omega (arith, l)) in rw (replay, option_map, sent) rest

  -- Over a bounded channel, a subscription with at most 64 matching recent events returns a stream
  -- that starts with all of them, in order. With more it never returns: it waits for room in a
  -- channel that nobody reads.
  pub stream_audit_events_replay :
      (since : Option Text) (event_types : List Text) (svc : AuditSvc)
      → option_map bounded.buffered (stream_audit_events api since event_types svc) ≡ (
          if leb (length (get_recent_audit_events since event_types 100 svc.store)) 64
          then some (map proto_of_row (get_recent_audit_events since event_types 100 svc.store))
          else none)
  unfolding stream_audit_events
  stream_audit_events_replay since event_types svc =
      let rows = get_recent_audit_events since event_types 100 svc.store in
      let sent = map proto_of_row rows in
      let l = length-map proto_of_row rows in
      elim (≤_or_< (length rows) 64) [
        | inl fits ↦ rw (leb-true fits) (
            replay_fits sent 64 (api.channel 64) (bounded.room-channel 64) (omega (arith, l, fits))
            ∙ ap (λ (x : List AuditEventProto). some (x ++ sent)) (bounded.buffered-channel 64))
        | inr over ↦ rw (leb-false over) (
            replay_blocks sent 64 (api.channel 64) (bounded.room-channel 64)
              (omega (arith, l, over)))
      ]

-- The row that an event is stored as.
abbrev pub row_of : Text → AuditEventProto → AuditRow
row_of now e = record {
  id = e.event_id;
  event_type = e.event_type;
  occurred_at = now;
  source_service = e.source_service;
  user_id = e.user_id;
  session_id = none_if_empty e.session_id;
  payload_json = e.payload_json;
}

proto_of_row-row_of :
    (now : Text) (e : AuditEventProto) → e.occurred_at ≡ none → proto_of_row (row_of now e) ≡ e
proto_of_row-row_of now e h =
    λ i. record e { occurred_at = sym h i; session_id = emptied e.session_id i }
  where
    emptied : (t : Text) → unwrap_or_default (none_if_empty t) ≡ t
    emptied [] = refl
    emptied (x ∷ t) = refl

-- Publishing an event with a new identifier stores it, so that a replay sends it as it was, and
-- sends it to the live subscribers. With a used identifier nothing is stored and nothing is sent.
pub publish_event_lem :
    (db_text : DbError → Text) (now : Text) (e : AuditEventProto) (svc : AuditSvc)
    → e.occurred_at ≡ none
    → ((r : AuditRow) × (proto_of_row r ≡ e)
        × (publish_event db_text now e svc ≡ (
          ok true,
          record {
            store = record (svc.store) { audit_events = svc.store.audit_events ++ r ∷ [] };
            sent = svc.sent ++ e ∷ [];
          },
        )))
      ⊎ ((any (λ (r : AuditRow). text_eq r.id e.event_id) svc.store.audit_events ≡ true)
          × (publish_event db_text now e svc ≡ (err (to_status db_text unique_violation), svc)))
unfolding publish_event published store_audit_event
publish_event_lem db_text now e svc h =
    elim (Bool-cases (any (λ (r : AuditRow). text_eq r.id e.event_id) svc.store.audit_events)) [
      | inl used ↦ inr (used, rw used refl)
      | inr free ↦ inl (row_of now e, proto_of_row-row_of now e h, rw free refl)
    ]
