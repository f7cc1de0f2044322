-- ===== src/Central/IamStore/AuditLog.antt =====
-- crates/elan-central/src/db/iam_store.rs, lines 155-231: the table of audit events.
use elan.Common.{
  ℕ, ◌++◌, [], ◌∷◌, List, Bool, true, Option, none, some, Text, text_eq, contains, filter, any,
  take, ok, err, if◌then◌else◌,
}
use elan.Common.Sorting.{sort_by}
use elan.Central.Database.{unique_violation}
use elan.Central.CatalogStore.{text_le}
use elan.Central.IamStore.{AuditRow, IamStore, Iam}

unfoldable pub store_audit_event :
    Text → Text → Text → Text → Text → Option Text → Text → Iam (Unit {0})
store_audit_event id event_type occurred_at source_service user_id session_id payload_json s =
    if any (λ (r : AuditRow). text_eq r.id id) s.audit_events then (err unique_violation, s) else (
      ok tt,
      record s {
        audit_events =
            s.audit_events
            ++ record {
              id = id;
              event_type = event_type;
              occurred_at = occurred_at;
              source_service = source_service;
              user_id = user_id;
              session_id = session_id;
              payload_json = payload_json;
            }
              ∷ [];
      },
    )

-- `occurred_at >= ?`, or no bound.
abbrev pub is_since : Option Text → AuditRow → Bool
is_since none r = true
is_since (some since) r = text_le since r.occurred_at

-- `ORDER BY occurred_at DESC`
abbrev pub newest_first : AuditRow → AuditRow → Bool
newest_first a b = text_le b.occurred_at a.occurred_at

abbrev pub is_asked : List Text → Text → Bool
is_asked [] t = true
is_asked (x ∷ xs) t = contains (x ∷ xs) t

unfoldable pub get_recent_audit_events : Option Text → List Text → ℕ → IamStore → List AuditRow
get_recent_audit_events since event_types limit s =
    filter (λ (r : AuditRow). is_asked event_types r.event_type)
      (take limit (sort_by newest_first (filter (is_since since) s.audit_events)))
