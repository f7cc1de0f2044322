-- ===== src/Tui/View.antt =====
-- crates/elan-tui/src/app.rs, `App::draw`: the widgets of a frame, each with its area, in the order of
-- their rendering. The layout solver of ratatui is a parameter; texts are UTF-8.

pub mod Recent
pub mod Framed
use elan.Common.{
  ℕ, ◌+◌, ◌-◌, ◌++◌, [], ◌∷◌, List, Bool, true, false, ◌&&◌, ◌%◌, ◌^◌, Option, none, some, Text,
  codes, map, reverse, length, drop, take, ltb, if◌then◌else◌,
}
use elan.Common.Decimal.{display_nat}
use elan.Common.External.{Value, null, string}
use elan.Query.Http.{QueryResponse, NamespaceInfo, DatasetSummary}
use elan.Tui.{Pane, App}

pub record Rect : Type 0 where
  pub x : ℕ
  pub y : ℕ
  pub width : ℕ
  pub height : ℕ

pub data Direction : Type 0 where
  vertical horizontal : Direction

pub data Color : Type 0 where
  cyan gray black dark_gray : Color

pub record Style : Type 0 where
  pub fg : Option Color
  pub bg : Option Color
  pub bold : Bool

abbrev plain : Style
plain = record { fg = none; bg = none; bold = false }

-- A block with all borders, in one style with its title.
pub record Block : Type 0 where
  pub title : Text
  pub style : Style

-- A table has its header, its rows, the least widths of its columns and its highlight.
pub data Widget (E : Type 0) : Type 0 where
  frame : Block → Widget E
  text_area : E → Widget E
  table : Block → List Text → List (List Text) → List ℕ → Style → Widget E
  paragraph : Option Block → Text → Style → Widget E
  items : Block → List (Text × Style) → Widget E

abbrev pub Drawn : Type 0 → Type 0
Drawn E = Widget E × Rect

-- `Layout::split` by percentages, as a function of the index, and `Block::inner`.
pub record Solver : Type 0 where
  pub split : Direction → List ℕ → Rect → ℕ → Rect
  pub inner : Rect → Rect

-- `a + b` in `u16`: a panic (`none`) where overflow checks are on, else a wrap.
unfoldable pub add_u16 : Bool → ℕ → ℕ → Option ℕ
add_u16 overflow_checks a b =
    if overflow_checks && ltb 65535 (a + b) then none else some ((a + b) % 2 ^ 16)

unfoldable pub is_active : Pane → Pane → Bool
is_active Pane.editor Pane.editor = true
is_active Pane.results Pane.results = true
is_active Pane.audit Pane.audit = true
is_active Pane.catalog Pane.catalog = true
is_active active pane = false

abbrev pub highlighted : Style
highlighted = record { fg = some cyan; bg = none; bold = true }

abbrev pub dimmed : Style
dimmed = record { fg = some gray; bg = none; bold = false }

abbrev pub bold_text : Style
bold_text = record plain { bold = true }

-- A cell of the results: `to_string` is that of `serde_json::Value`.
unfoldable pub cell_text : (Value → Text) → Value → Text
cell_text to_string null = codes "NULL"
cell_text to_string (string s) = s
cell_text to_string other = to_string other

results_title : Bool → Option QueryResponse → Text
results_title true results = codes " Results [loading...] "
results_title false (some r) =
    codes " Results [" ++ (display_nat (length r.rows) ++ codes " rows] ")
results_title false none = codes " Results "

module _ {E : Type 0} where
  unfoldable pub pane_style : App E → Pane → Style
  pane_style app pane = if is_active app.active_pane pane then highlighted else dimmed

  unfoldable pub draw_editor : Solver → App E → Rect → List (Drawn E)
  draw_editor solver app area =
      (
        frame (record {
          title = codes " SQL Editor [" ++ (app.username ++ codes "] ");
          style = pane_style app Pane.editor;
        }),
        area,
      )
      ∷ (text_area app.editor, solver.inner area)
      ∷ []

  results_widget : (Value → Text) → Block → ℕ → Option QueryResponse → Widget E
  results_widget to_string block scroll (some resp) =
      table block resp.columns (map (λ row. map (cell_text to_string) row) (drop scroll resp.rows))
        (map (λ column. 12) resp.columns) (record plain { bg = some dark_gray })
  results_widget to_string block scroll none =
      paragraph (some block) (codes "No results yet.") plain

  unfoldable pub draw_results : (Value → Text) → App E → Rect → List (Drawn E)
  unfolding results_title results_widget
  draw_results to_string app area =
      let block : Block = record {
        title = results_title app.is_loading app.results;
        style = pane_style app Pane.results;
      } in
      (results_widget to_string block app.results_scroll app.results, area) ∷ []

  -- The lines of the log, from the newest on.
  unfoldable pub audit_lines : App E → Rect → List Text
  audit_lines app area = take area.height (drop app.audit_scroll (reverse app.audit_log))

  unfoldable pub draw_audit : App E → Rect → List (Drawn E)
  draw_audit app area =
      (
        items
            (record {
              title = codes " Audit [" ++ (display_nat (length app.audit_log) ++ codes " events] ");
              style = pane_style app Pane.audit;
            })
            (map (λ s. (s, plain)) (audit_lines app area)),
        area,
      )
      ∷ []

-- "▾ {name}" and "  └ {name} ({source type})"
abbrev pub namespace_line : Text → Text
namespace_line name = 0xE2 ∷ 0x96 ∷ 0xBE ∷ b' ' ∷ name

abbrev pub dataset_line : DatasetSummary → Text
dataset_line ds =
    b' '
    ∷ b' '
    ∷ 0xE2
    ∷ 0x94
    ∷ 0x94
    ∷ b' '
    ∷ (ds.name ++ (codes " (" ++ (ds.source_type ++ codes ")")))

-- "(not loaded — press Ctrl+R)"
abbrev pub not_loaded : Text
not_loaded = codes "(not loaded " ++ (0xE2 ∷ 0x80 ∷ 0x94 ∷ codes " press Ctrl+R)")

unfoldable pub dataset_items : List DatasetSummary → List (Text × Style)
dataset_items [] = []
dataset_items (ds ∷ datasets) = (dataset_line ds, plain) ∷ dataset_items datasets

unfoldable pub catalog_items : List NamespaceInfo → List (Text × Style)
catalog_items [] = []
catalog_items (ns ∷ namespaces) =
    (namespace_line ns.name, bold_text) ∷ (dataset_items ns.datasets ++ catalog_items namespaces)

unfoldable pub items_of : Option (List NamespaceInfo) → List (Text × Style)
items_of none = (not_loaded, plain) ∷ []
items_of (some namespaces) = catalog_items namespaces

module _ {E : Type 0} where
  unfoldable pub draw_catalog : App E → Rect → List (Drawn E)
  draw_catalog app area =
      (
        items (record { title = codes " Catalog "; style = pane_style app Pane.catalog })
            (items_of app.catalog),
        area,
      )
      ∷ []

  bar : App E → Rect → Option ℕ → Option (List (Drawn E))
  bar app area none = none
  bar app area (some y) = some (
      (
        paragraph none
            (b' '
              ∷ (app.status_message
                  ++ (codes " | "
                      ++ codes " Tab:pane  F5/Ctrl+Enter:run  Ctrl+R:refresh  Ctrl+C:quit ")))
            (record { fg = some black; bg = some cyan; bold = false }),
        record { x = area.x; y = y; width = area.width; height = 1 },
      )
      ∷ [])

  unfoldable pub draw_status_bar : Bool → App E → Rect → Option (List (Drawn E))
  unfolding bar
  draw_status_bar overflow_checks app area =
      bar app area (add_u16 overflow_checks area.y (area.height - 1))

  over : List (Drawn E) → Option (List (Drawn E)) → Option (List (Drawn E))
  over below none = none
  over below (some above) = some (below ++ above)

  -- `App::draw`; `none` is a panic.
  unfoldable pub draw : Solver → (Value → Text) → Bool → App E → Rect → Option (List (Drawn E))
  unfolding over
  draw solver to_string overflow_checks app area =
      let vertical_areas = solver.split vertical (40 ∷ 60 ∷ []) area in
      let bottom = solver.split horizontal (50 ∷ 25 ∷ 25 ∷ []) (vertical_areas 1) in
      over
        (draw_editor solver app (vertical_areas 0)
          ++ (draw_results to_string app (bottom 0)
              ++ (draw_audit app (bottom 1) ++ draw_catalog app (bottom 2))))
        (draw_status_bar overflow_checks app area)
