-- ===== src/Tui/View/Recent.antt =====
-- What the audit pane shows of the events that the services publish, and the frame around it.
use elan.Common.{
  ◌≤◌, ◌≡◌, refl, sym, ap, ◌∙◌, ◌++◌, [], ◌∷◌, List, Bool, Option, none, some, Text, codes, Result,
  ok, >>=-eq-ok, collect, map, reverse, take, drop, length, map_err, unwrap_or_default,
}
use elan.Common.External.{UuidCodec}
use elan.Domain.Errors.{ElanError}
use elan.Domain.Proto.{AuditEventProto}
use elan.Audit.Event.{AuditEvent, AuditPayload, event_type}
use elan.Audit.Sink.{central_message}
use elan.Central.AuditService.{Received, forward}
use elan.Tui.{TextArea, App, AppEvent, push_audit, audit_line, handle_event}
use elan.Tui.Log.{recent, push_all, push_all-recent}
use elan.Tui.Client.{audit_messages}
use elan.Tui.View.{Rect, audit_lines}

-- The rounds of the loop for some events, while none of them quits.
pub run_events : {E : Type 0} → Bool → TextArea E → List AppEvent → App E → Option (App E)
run_events checks area [] app = some app
run_events checks area (e ∷ es) app = elim (handle_event checks area e app) [
  | none ↦ none
  | some (app', tasks, quits) ↦ run_events checks area es app'
]

push_all-scroll :
    {E : Type 0} (msgs : List Text) (app : App E)
    → (push_all msgs app).audit_scroll ≡ app.audit_scroll
unfolding push_all push_audit
push_all-scroll [] app = refl
push_all-scroll (msg ∷ msgs) app = push_all-scroll msgs (push_audit msg app)

-- The line of a published event. The sink sends no time, which the client shows as "?".
abbrev pub shown : AuditEvent → Text
shown e = codes "[?] " ++ (event_type e ++ (b' ' ∷ e.subject.user_id))

forward-all : (ms : List AuditEventProto) → forward [] (map Received.event ms) ≡ ms
unfolding forward
forward-all [] = refl
forward-all (m ∷ ms) = ap (λ l. m ∷ l) (forward-all ms)

module _ {E : Type 0} (checks : Bool) (area : TextArea E) where
  run_events-audit_messages :
      (ms : List AuditEventProto) (app : App E)
      → run_events checks area (audit_messages (map ok ms)) app
        ≡ some (push_all (map audit_line ms) app)
  unfolding run_events audit_messages handle_event push_all
  run_events-audit_messages [] app = refl
  run_events-audit_messages (m ∷ ms) app =
      run_events-audit_messages ms (push_audit (audit_line m) app)

module _ (uuids : UuidCodec) (payload_to_string : AuditPayload → Result Text Text) where
  audit_line-central_message :
      (e : AuditEvent) (m : AuditEventProto)
      → central_message uuids payload_to_string e ≡ ok m
      → audit_line m ≡ shown e
  unfolding central_message audit_line
  audit_line-central_message e m h =
      let (text, printed, built) =
        >>=-eq-ok (map_err ElanError.serde (payload_to_string e.payload)) _ h in
      let same : record {
        event_id = uuids.to_string e.event_id;
        event_type = event_type e;
        occurred_at = none;
        source_service = e.source_service;
        user_id = e.subject.user_id;
        session_id = unwrap_or_default e.subject.session_id;
        payload_json = text;
      }
          ≡ m =
        cc in
      ap audit_line (sym same)

  map-shown :
      (es : List AuditEvent) (ms : List AuditEventProto)
      → collect (central_message uuids payload_to_string) es ≡ ok ms
      → map audit_line ms ≡ map shown es
  map-shown [] ms h = let same : [] ≡ ms = cc in ap (map audit_line) (sym same)
  map-shown (e ∷ es) ms h =
      let (m, one, h1) = >>=-eq-ok (central_message uuids payload_to_string e) _ h in
      let (rest, all, h2) = >>=-eq-ok (collect (central_message uuids payload_to_string) es) _ h1 in
      let same : m ∷ rest ≡ ms = cc in
      let line = audit_line-central_message e m one in
      let lines = map-shown es rest all in ap (map audit_line) (sym same) ∙ (λ i. line i ∷ lines i)

  -- Events that the central sink can send, and that a client that asks for all of them receives
  -- live, are shown by type and user, the newest first, before the lines that were there: as many of
  -- the last 500 lines as the pane is high, if it is not scrolled and the log had at most 500 lines.
  pub audit_lines-run_events :
      {E : Type 0} (checks : Bool) (area : TextArea E) (es : List AuditEvent)
      (ms : List AuditEventProto) (app : App E) (pane : Rect)
      → collect (central_message uuids payload_to_string) es ≡ ok ms
      → length app.audit_log ≤ 500
      → app.audit_scroll ≡ 0
      → (app' : App E) × (run_events checks area
            (audit_messages (map ok (forward [] (map Received.event ms))))
            app
          ≡ some app')
        × (audit_lines app' pane
            ≡ take pane.height (reverse (recent (app.audit_log ++ map shown es))))
  unfolding audit_lines
  audit_lines-run_events checks area es ms app pane sent fits top =
      let lines = map audit_line ms in
      let log =
        push_all-recent lines app fits
        ∙ ap (λ l. recent (app.audit_log ++ l)) (map-shown es ms sent) in
      let scroll = push_all-scroll lines app ∙ top in
      (
        push_all lines app,
        ap (λ l. run_events checks area (audit_messages (map ok l)) app) (forward-all ms)
            ∙ run_events-audit_messages checks area ms app,
        (λ i. take pane.height (drop (scroll i) (reverse (log i)))),
      )
