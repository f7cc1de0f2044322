-- ===== src/Tui/Client/Results.antt =====
-- The results of a query on the screen.
use elan.Common.{
  ℕ, ◌≡◌, refl, sym, ap, ◌∙◌, subst, ◌++◌, [], ◌∷◌, List, Bool, true, false, Option, none, some,
  Text, codes, Result, ok, err, map, drop, length, arith, if◌then◌else◌, length-map, map-drop,
}
use mathlib.Core.List.{map-append}
use elan.Common.Decimal.{display_nat}
use elan.Common.External.{Uuid, UuidCodec, Value}
use elan.Domain.Arrow.{ScalarValue, Field}
use elan.Iam.Types.{Subject}
use elan.Iam.Optimizer.{DfError}
use elan.Query.RemoteScan.Execute.{RecordBatch}
use elan.Query.Session.{Session}
use elan.Query.Http.{
  Cells, HttpError, QueryResponse, Draws, arrow_col_to_json, all_rows, batches_to_response,
  extract_subject, handle_query,
}
use elan.Query.Http.Answered.{handle_query-ok}
use elan.Tui.{Pane, TextArea, App, Task, run_query, Step, stay, on_query_result, handle_event}
use elan.Tui.Client.{Answer, Http, authorization, query, run_task}
use elan.Tui.View.{Rect, dark_gray, table, cell_text, pane_style, draw_results}

-- What a cell of an answer is shown as.
abbrev shown_text : Text → Result Text (Option Text) → Text
shown_text data_type (ok none) = codes "null"
shown_text data_type (ok (some s)) = s
shown_text data_type (err e) = b'<' ∷ (data_type ++ codes ">")

abbrev pub shown_cell : Cells → ScalarValue → Text
shown_cell cells v =
    if cells.is_null v then codes "NULL" else shown_text (cells.data_type v) (cells.cast v)

abbrev pub shown_rows : Cells → List RecordBatch → List (List Text)
shown_rows cells [] = []
shown_rows cells (b ∷ bs) = map (λ row. map (shown_cell cells) row) b.rows ++ shown_rows cells bs

module _ (to_string : Value → Text) (cells : Cells) where
  cell_text-arrow_col_to_json :
      (v : ScalarValue) → cell_text to_string (arrow_col_to_json cells v) ≡ shown_cell cells v
  unfolding cell_text arrow_col_to_json
  cell_text-arrow_col_to_json v = ground arith

  row_text :
      (row : List ScalarValue)
      → map (cell_text to_string) (map (arrow_col_to_json cells) row) ≡ map (shown_cell cells) row
  row_text [] = refl
  row_text (v ∷ row) = λ i. cell_text-arrow_col_to_json v i ∷ row_text row i

  rows_text :
      (rows : List (List ScalarValue))
      → map
          (λ row. map (cell_text to_string) row)
          (map (λ row. map (arrow_col_to_json cells) row) rows)
        ≡ map (λ row. map (shown_cell cells) row) rows
  rows_text [] = refl
  rows_text (row ∷ rows) = λ i. row_text row i ∷ rows_text rows i

  all_rows-shown :
      (bs : List RecordBatch)
      → map (λ row. map (cell_text to_string) row) (all_rows cells bs) ≡ shown_rows cells bs
  unfolding all_rows
  all_rows-shown [] = refl
  all_rows-shown (b ∷ bs) =
      map-append _ (map (λ row. map (arrow_col_to_json cells) row) b.rows) (all_rows cells bs)
      ∙ (λ i. rows_text b.rows i ++ all_rows-shown bs i)

response_drawn :
    {E : Type 0} (to_string : Value → Text) (cells : Cells) (id : Uuid) (d : ℕ) (b : RecordBatch)
    (bs : List RecordBatch) (app : App E) (pane : Rect)
    → draw_results to_string
        (on_query_result (ok (batches_to_response cells id (b ∷ bs) d)) app)
        pane
      ≡ (
        table
            (record {
              title =
                  codes " Results ["
                  ++ (display_nat (length (shown_rows cells (b ∷ bs))) ++ codes " rows] ");
              style =
                  pane_style
                    (on_query_result (ok (batches_to_response cells id (b ∷ bs) d)) app)
                    Pane.results;
            })
            (map (λ (f : Field). f.name) b.schema)
            (drop app.results_scroll (shown_rows cells (b ∷ bs)))
            (map (λ column. 12) (map (λ (f : Field). f.name) b.schema))
            (record { fg = none; bg = some dark_gray; bold = false }),
        pane,
      )
        ∷ []
unfolding draw_results on_query_result batches_to_response pane_style
response_drawn to_string cells id d b bs app pane =
    let show = λ (row : List Value). map (cell_text to_string) row in
    let rows = all_rows cells (b ∷ bs) in
    let same = all_rows-shown to_string cells (b ∷ bs) in
    let count : length rows ≡ length (shown_rows cells (b ∷ bs)) =
      sym (length-map show rows) ∙ ap length same in
    let cut = map-drop show app.results_scroll rows ∙ ap (drop app.results_scroll) same in
    λ i.
      (
        table
            (record {
              title = codes " Results [" ++ (display_nat (count i) ++ codes " rows] ");
              style =
                  pane_style (on_query_result (ok (batches_to_response cells id (b ∷ bs) d)) app)
                    Pane.results;
            })
            (map (λ (f : Field). f.name) b.schema) (cut i)
            (map (λ column. 12) (map (λ (f : Field). f.name) b.schema))
            (record { fg = none; bg = some dark_gray; bold = false }),
        pane,
      )
      ∷ []

on_query_result_shown :
    {E : Type 0} (resp : QueryResponse) (app app' : App E) (tasks : List Task)
    → ◌≡◌ {A = Step E} (stay (on_query_result (ok resp) app)) (some (app', tasks, false))
    → on_query_result (ok resp) app ≡ app'
on_query_result_shown resp app app' tasks h = cc

module _ (uuids : UuidCodec) (cells : Cells) (instance_name : Text) (draws : Draws)
    (build : Subject → Result Text Session)
    (run_sql : Session → Text → Result DfError (List RecordBatch)) where
  -- The answer of elan-query to a statement that the client sends for its user.
  abbrev pub answered : Text → Text → Text → Result HttpError QueryResponse
  answered username sql session_id =
      (handle_query uuids cells instance_name draws build run_sql (some (authorization username))
        (record { sql = sql; session_id = some session_id })).0

  module _ {E B : Type 0} (area : TextArea E) (http : Http B) (base_url : Text)
      (to_string : Value → Text) where
    -- A query whose statement yields batches in the session of the client's user ends with a table on
    -- the screen, below the number of its rows: the columns of the first batch, and the rows of all
    -- batches from the scroll position on, with their cells as texts. It is assumed that elan-query
    -- answers with success, and that HTTP and JSON keep the response.
    pub results_shown :
        (overflow_checks : Bool) (app app' : App E) (answer : Answer B) (tasks : List Task)
        (sql session_id : Text) (ctx : Session) (b : RecordBatch) (bs : List RecordBatch)
        (resp : QueryResponse) (pane : Rect)
        → build (record { user_id = app.username; groups = [] }) ≡ ok ctx
        → run_sql ctx sql ≡ ok (b ∷ bs)
        → http.post
            (base_url ++ codes "/api/v1/query")
            (authorization app.username)
            (record { sql = sql; session_id = some session_id })
          ≡ ok answer
        → answer.is_success ≡ true
        → answered app.username sql session_id ≡ ok resp
        → http.json_query answer.body ≡ ok resp
        → handle_event overflow_checks area
            (run_task http base_url app.username (run_query sql session_id))
            app
          ≡ some (app', tasks, false)
        → draw_results to_string app' pane
          ≡ (
            table
                (record {
                  title =
                      codes " Results ["
                      ++ (display_nat (length (shown_rows cells (b ∷ bs))) ++ codes " rows] ");
                  style = pane_style app' Pane.results;
                })
                (map (λ (f : Field). f.name) b.schema)
                (drop app.results_scroll (shown_rows cells (b ∷ bs)))
                (map (λ column. 12) (map (λ (f : Field). f.name) b.schema))
                (record { fg = none; bg = some dark_gray; bold = false }),
            pane,
          )
            ∷ []
    unfolding run_task query handle_event handle_query batches_to_response extract_subject
    results_shown overflow_checks app app' answer tasks sql session_id ctx b bs resp pane built ran
          posted success served kept handled =
        let got : query http base_url app.username sql session_id ≡ ok resp =
          rw (posted, success) kept in
        let next : on_query_result (ok resp) app ≡ app' =
          on_query_result_shown resp app app' tasks (rw got at handled) in
        let made : ◌≡◌ {A = Result HttpError QueryResponse}
            (ok (batches_to_response cells draws.query_id (b ∷ bs) draws.duration_ms)) (ok resp) =
          sym (
            handle_query-ok uuids cells instance_name draws build run_sql
              (some (authorization app.username))
              (record { sql = sql; session_id = some session_id }) ctx (b ∷ bs) built ran)
          ∙ served in
        let is_resp : batches_to_response cells draws.query_id (b ∷ bs) draws.duration_ms ≡ resp =
          cc in
        subst
          (λ (a : App E).
            draw_results to_string a pane
            ≡ (
              table
                  (record {
                    title =
                        codes " Results ["
                        ++ (display_nat (length (shown_rows cells (b ∷ bs))) ++ codes " rows] ");
                    style = pane_style a Pane.results;
                  })
                  (map (λ (f : Field). f.name) b.schema)
                  (drop app.results_scroll (shown_rows cells (b ∷ bs)))
                  (map (λ column. 12) (map (λ (f : Field). f.name) b.schema))
                  (record { fg = none; bg = some dark_gray; bold = false }),
              pane,
            )
              ∷ [])
          (ap (λ r. on_query_result (ok r) app) is_resp ∙ next)
          (response_drawn to_string cells draws.query_id draws.duration_ms b bs app pane)
