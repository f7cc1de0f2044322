-- ===== src/Tui.antt =====
-- crates/elan-tui: the state of the terminal client (app.rs) and its event loop (main.rs). The text
-- area of the editor is a parameter; what a handler spawns is returned as a list of tasks.
pub mod Log
pub mod Running
pub mod View
pub mod Client
use elan.Common.{
  ℕ, ◌+◌, ◌-◌, ◌++◌, [], ◌∷◌, List, Bool, true, false, ◌&&◌, Option, none, some, Text, codes,
  Result, ok, err, length, drop, ltb, ◌==◌, is_empty, if◌then◌else◌,
}
use elan.Common.Decimal.{display_nat}
use elan.Domain.Proto.{AuditEventProto}
use elan.Query.Http.{QueryResponse, NamespaceInfo}
use elan.Query.RemoteScan.Execute.{succ_u16}

pub data Pane : Type 0 where
  editor results audit catalog : Pane

pub data Modifiers : Type 0 where
  no_modifiers control : Modifiers
  other : ℕ → Modifiers

pub data KeyCode : Type 0 where
  char : ℕ → KeyCode
  tab enter up down : KeyCode
  f : ℕ → KeyCode
  other : ℕ → KeyCode

pub record KeyEvent : Type 0 where
  pub modifiers : Modifiers
  pub code : KeyCode

-- The `tui_textarea` widget, and `str::trim` on the Unicode white space.
pub record TextArea (E : Type 0) : Type 0 where
  pub default : E
  pub input : KeyEvent → E → E
  pub lines : E → List Text
  pub trim : Text → Text

pub record App (E : Type 0) : Type 0 where
  pub active_pane : Pane
  pub editor : E
  pub results : Option QueryResponse
  pub results_scroll : ℕ
  pub audit_log : List Text
  pub audit_scroll : ℕ
  pub catalog : Option (List NamespaceInfo)
  pub status_message : Text
  pub session_id : Text
  pub username : Text
  pub is_loading : Bool

-- What a handler leaves to a spawned task, which sends its end back as an event.
pub data Task : Type 0 where
  load_catalog : Task
  run_query : Text → Text → Task

pub data AppEvent : Type 0 where
  key : KeyEvent → AppEvent
  audit_message : Text → AppEvent
  query_result : Result Text QueryResponse → AppEvent
  catalog_loaded : List NamespaceInfo → AppEvent

abbrev pub next_of : Pane → Pane
next_of Pane.editor = Pane.results
next_of Pane.results = Pane.audit
next_of Pane.audit = Pane.catalog
next_of Pane.catalog = Pane.editor

-- `lines().join("\n")`
abbrev pub join_lines : List Text → Text
join_lines [] = []
join_lines (l ∷ []) = l
join_lines (l ∷ m ∷ ls) = l ++ (10 ∷ join_lines (m ∷ ls))

-- `saturating_sub(1)`
abbrev pub up_one : ℕ → ℕ
up_one n = n - 1

-- `push`, and `remove(0)` above 500.
abbrev pub capped : List Text → List Text
capped log = if ltb 500 (length log) then drop 1 log else log

-- The message of an event of the audit stream.
unfoldable pub audit_line : AuditEventProto → Text
audit_line event =
    b'['
    ∷ (elim event.occurred_at [ none ↦ codes "?" | some t ↦ codes "now" ]
        ++ (codes "] " ++ (event.event_type ++ (b' ' ∷ event.user_id))))

module _ {E : Type 0} where
  unfoldable pub next_pane : App E → App E
  next_pane app = record app { active_pane = next_of app.active_pane }

  unfoldable pub push_audit : Text → App E → App E
  push_audit msg app = record app { audit_log = capped (app.audit_log ++ msg ∷ []) }

  unfoldable pub on_query_result : Result Text QueryResponse → App E → App E
  on_query_result (ok resp) app = record app {
    is_loading = false;
    status_message =
        codes "Done: "
        ++ (display_nat (length resp.rows)
            ++ (codes " rows in " ++ (display_nat resp.duration_ms ++ codes "ms")));
    results = some resp;
  }
  on_query_result (err e) app = record app {
    is_loading = false;
    status_message = codes "Error: " ++ e;
  }

  unfoldable pub on_catalog : List NamespaceInfo → App E → App E
  on_catalog namespaces app = record app {
    catalog = some namespaces;
    status_message =
        codes "Catalog loaded: " ++ (display_nat (length namespaces) ++ codes " namespace(s)");
  }

-- What an event leads to: a panic (`none`), or the new state, the spawned tasks, and whether to quit.
abbrev pub Step : Type 0 → Type 0
Step E = Option (App E × List Task × Bool)

abbrev pub stay : {E : Type 0} → App E → Step E
stay app = some (app, [], false)

module _ {E : Type 0} (area : TextArea E) where
  -- `App::new`
  unfoldable pub new_app : E → Text → Text → App E
  new_app blank session_id username = record {
    active_pane = Pane.editor;
    editor = blank;
    results = none;
    results_scroll = 0;
    audit_log = [];
    audit_scroll = 0;
    catalog = none;
    status_message = codes "Ready";
    session_id = session_id;
    username = username;
    is_loading = false;
  }

  unfoldable pub execute_query : App E → App E × List Task
  execute_query app =
      let sql = join_lines (area.lines app.editor) in
      if is_empty (area.trim sql)
      then (record app { status_message = codes "No SQL to execute" }, [])
      else (
        record app {
          is_loading = true;
          status_message = codes "Executing...";
          results_scroll = 0;
          active_pane = Pane.results;
        },
        run_query sql app.session_id ∷ [],
      )

module _ (overflow_checks : Bool) where
  scroll_results : {E : Type 0} → App E → Option ℕ → Step E
  scroll_results app none = none
  scroll_results app (some n) = stay (record app { results_scroll = n })

  scroll_audit : {E : Type 0} → App E → Option ℕ → Step E
  scroll_audit app none = none
  scroll_audit app (some n) = stay (record app { audit_scroll = n })

  results_key : {E : Type 0} → KeyCode → App E → Step E
  results_key up app = stay (record app { results_scroll = up_one app.results_scroll })
  results_key down app = scroll_results app (succ_u16 overflow_checks app.results_scroll)
  results_key _ app = stay app

  audit_key : {E : Type 0} → KeyCode → App E → Step E
  audit_key up app = stay (record app { audit_scroll = up_one app.audit_scroll })
  audit_key down app = scroll_audit app (succ_u16 overflow_checks app.audit_scroll)
  audit_key _ app = stay app

  module _ {E : Type 0} (area : TextArea E) where
    -- "Pane-specific scrolling": the second match of `handle_key`.
    pane_key : Pane → KeyEvent → App E → Step E
    pane_key Pane.results k app = results_key k.code app
    pane_key Pane.audit k app = audit_key k.code app
    pane_key Pane.editor k app = stay (record app { editor = area.input k app.editor })
    pane_key Pane.catalog k app = stay app

    executed : App E × List Task → Step E
    executed (app, tasks) = some (app, tasks, false)

    -- Ctrl+L clears the editor if it is active.
    cleared : Pane → KeyEvent → App E → Step E
    cleared Pane.editor k app = stay (record app { editor = area.default })
    cleared pane k app = pane_key pane k app

    control_char : ℕ → KeyEvent → App E → Step E
    control_char c k app =
        if c == b'c'
        then some (app, [], true)
        else if c == b'r'
        then some (
          record app { status_message = codes "Refreshing catalog..." },
          load_catalog ∷ [],
          false,
        )
        else if c == b'l'
        then cleared app.active_pane k app
        else pane_key app.active_pane k app

    -- The global keys, and else the keys of the pane.
    global_key : Modifiers → KeyCode → KeyEvent → App E → Step E
    global_key control (char c) k app = control_char c k app
    global_key control enter k app = executed (execute_query area app)
    global_key no_modifiers tab k app = stay (next_pane app)
    global_key no_modifiers (f n) k app =
        if n == 5 then executed (execute_query area app) else pane_key app.active_pane k app
    global_key _ _ k app = pane_key app.active_pane k app

    unfoldable pub handle_key : KeyEvent → App E → Step E
    unfolding global_key control_char cleared executed pane_key results_key audit_key scroll_results
        scroll_audit
    handle_key k app = global_key k.modifiers k.code k app

    -- One round of the event loop of `main`.
    unfoldable pub handle_event : AppEvent → App E → Step E
    handle_event (AppEvent.key k) app = handle_key k app
    handle_event (AppEvent.audit_message msg) app = stay (push_audit msg app)
    handle_event (AppEvent.query_result r) app = stay (on_query_result r app)
    handle_event (AppEvent.catalog_loaded c) app = stay (on_catalog c app)
