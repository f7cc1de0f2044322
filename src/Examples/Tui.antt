-- ===== src/Examples/Tui.antt =====
-- Examples for the terminal client.
use elan.Common.{◌≡◌, ◌↔◌, ◌⊎◌, refl, ◌++◌, [], ◌∷◌, true, none, Text, codes, Result}
use elan.Query.RemoteScan.Execute.{succ_u16}
use elan.Tui.{
  Pane, Modifiers, control, char, enter, down, KeyEvent, TextArea, App, execute_query, handle_key,
  handle_event, new_app, on_query_result, push_audit,
}
use elan.Tui.Running.{
  World, pressed, informed, ended, Reach, here, next, IsSound, started, started-IsSound,
  handle_key-panic,
}

abbrev typed : KeyEvent → Text → Text
typed k t = elim k.code [ char c ↦ t ++ c ∷ [] | _ ↦ t ]

-- An editor of one line.
abbrev pub area : TextArea Text
area = record { default = []; input = typed; lines = λ t. t ∷ []; trim = λ t. t }

abbrev blank : World Text
blank = started true area [] (codes "s1") (codes "alice")

abbrev letter : KeyEvent
letter = record { modifiers = Modifiers.no_modifiers; code = char b'x' }

abbrev execute : KeyEvent
execute = record { modifiers = control; code = enter }

abbrev scroll : KeyEvent
scroll = record { modifiers = Modifiers.no_modifiers; code = down }

abbrev written : World Text
written = record blank { app = record (blank.app) { editor = codes "x" } }

abbrev executing : World Text
executing = record {
  app = record (written.app) {
    is_loading = true;
    status_message = codes "Executing...";
    active_pane = Pane.results;
  };
  open_queries = 1;
}

abbrev scrolled : World Text
scrolled = record executing { app = record (executing.app) { results_scroll = 1 } }

abbrev told : World Text
told = record scrolled {
  app = record (scrolled.app) { audit_log = codes "[?] QuerySubmitted alice" ∷ [] };
}

abbrev done : World Text
done = record { app = on_query_result (Result.err (codes "refused")) told.app; open_queries = 0 }

-- A statement is typed, executed, scrolled, audited and refused.
course : Reach true area blank done
unfolding handle_event handle_key execute_query new_app succ_u16 push_audit
course =
    next
      (next
        (next
          (next (next here (pressed {w = blank} {w' = written} letter [] refl refl))
            (pressed {w = written} {w' = executing} execute _ refl refl))
          (pressed {w = executing} {w' = scrolled} scroll [] refl refl))
        (informed {w = scrolled} {w' = told} (codes "[?] QuerySubmitted alice") refl refl))
      (ended {w = told} {w' = done} (Result.err (codes "refused")) refl refl)

started-IsSound_example : IsSound true area done.app 0
started-IsSound_example = started-IsSound true area [] (codes "s1") (codes "alice") course

abbrev last_line : App Text
last_line = record (executing.app) { results_scroll = 65535 }

handle_key-panic_example : (handle_key true area scroll last_line ≡ none) ↔ (
    (true ≡ true)
    × (down ≡ down)
    × (((Pane.results ≡ Pane.results) × (last_line.results_scroll ≡ 65535))
        ⊎ ((Pane.results ≡ Pane.audit) × (last_line.audit_scroll ≡ 65535))))
handle_key-panic_example = handle_key-panic true area scroll last_line
