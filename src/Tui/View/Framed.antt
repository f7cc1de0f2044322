-- ===== src/Tui/View/Framed.antt =====
-- The frame of the client: its status bar, and the pane that it highlights.
use elan.Common.{
  ◌≡◌, ◌++◌, [], ◌∷◌, List, length, map, Option, none, some, Text, codes, if◌then◌else◌,
}
use elan.Common.Decimal.{display_nat}
use elan.Common.External.{Value}
use elan.Tui.{Pane, App}
use elan.Tui.View.{
  Rect, vertical, horizontal, highlighted, dimmed, Style, Block, Widget, frame, text_area, table,
  paragraph, items, Drawn, Solver, is_active, pane_style, results_widget, results_title,
  audit_lines, items_of, plain,
}

abbrev marked : Style → Rect → List Rect
marked style area = if style.bold then area ∷ [] else []

abbrev style_of : Pane → Pane → Rect → List Rect
style_of active pane area = marked (if is_active active pane then highlighted else dimmed) area

-- The areas of the highlighted panes.
abbrev pub highlighted_areas : {E : Type 0} → List (Drawn E) → List Rect
highlighted_areas [] = []
highlighted_areas ((frame b, area) ∷ ds) = marked b.style area ++ highlighted_areas ds
highlighted_areas ((table b header rows widths style, area) ∷ ds) =
    marked b.style area ++ highlighted_areas ds
highlighted_areas ((paragraph (some b) t style, area) ∷ ds) =
    marked b.style area ++ highlighted_areas ds
highlighted_areas ((paragraph none t style, area) ∷ ds) = highlighted_areas ds
highlighted_areas ((items b lines, area) ∷ ds) = marked b.style area ++ highlighted_areas ds
highlighted_areas ((text_area e, area) ∷ ds) = highlighted_areas ds

-- The block around a drawn widget, with its title.
abbrev pub block_of : {E : Type 0} → Widget E → Option Block
block_of (frame b) = some b
block_of (table b header rows widths style) = some b
block_of (paragraph o t style) = o
block_of (items b lines) = some b
block_of (text_area e) = none

-- What is said above a pane: the user and the number of events are named, and more may follow the
-- title of the results.
abbrev pub Says : {E : Type 0} → App E → Pane → Text → Type 0
Says app Pane.editor t = t ≡ codes " SQL Editor [" ++ (app.username ++ codes "] ")
Says app Pane.results t = (more : Text) × (t ≡ codes " Results " ++ more)
Says app Pane.audit t =
    t ≡ codes " Audit [" ++ (display_nat (length app.audit_log) ++ codes " events] ")
Says app Pane.catalog t = t ≡ codes " Catalog "

abbrev pub IsTitled : {E : Type 0} → App E → Pane → Widget E → Type 0
IsTitled app p w = (b : Block) × (block_of w ≡ some b) × Says app p b.title

-- Where a pane stands: the editor in the upper 40 percent, the others beside one another below.
abbrev pub pane_area : Solver → Rect → Pane → Rect
pane_area solver area Pane.editor = solver.split vertical (40 ∷ 60 ∷ []) area 0
pane_area solver area Pane.results =
    solver.split horizontal (50 ∷ 25 ∷ 25 ∷ []) (solver.split vertical (40 ∷ 60 ∷ []) area 1) 0
pane_area solver area Pane.audit =
    solver.split horizontal (50 ∷ 25 ∷ 25 ∷ []) (solver.split vertical (40 ∷ 60 ∷ []) area 1) 1
pane_area solver area Pane.catalog =
    solver.split horizontal (50 ∷ 25 ∷ 25 ∷ []) (solver.split vertical (40 ∷ 60 ∷ []) area 1) 2

module _ {E : Type 0} (solver : Solver) (to_string : Value → Text) (area : Rect) where
  widget_of : App E → Pane → Widget E
  widget_of app Pane.editor = frame (record {
    title = codes " SQL Editor [" ++ (app.username ++ codes "] ");
    style = pane_style app Pane.editor;
  })
  widget_of app Pane.results =
      results_widget to_string
        (record {
          title = results_title app.is_loading app.results;
          style = pane_style app Pane.results;
        })
        app.results_scroll app.results
  widget_of app Pane.audit =
      items
        (record {
          title = codes " Audit [" ++ (display_nat (length app.audit_log) ++ codes " events] ");
          style = pane_style app Pane.audit;
        })
        (map (λ s. (s, plain)) (audit_lines app (pane_area solver area Pane.audit)))
  widget_of app Pane.catalog =
      items (record { title = codes " Catalog "; style = pane_style app Pane.catalog })
        (items_of app.catalog)

  -- What is drawn: four widgets in the areas of their panes, and the text inside the editor's frame.
  abbrev pub in_panes : App E → (Pane → Widget E) → List (Drawn E)
  in_panes app w =
      (w Pane.editor, pane_area solver area Pane.editor)
      ∷ (text_area app.editor, solver.inner (pane_area solver area Pane.editor))
      ∷ (w Pane.results, pane_area solver area Pane.results)
      ∷ (w Pane.audit, pane_area solver area Pane.audit)
      ∷ (w Pane.catalog, pane_area solver area Pane.catalog)
      ∷ []
