-- ===== src/Tui/Client/Catalog.antt =====
-- The catalog on the screen, and what the user may read.
use elan.Common.{
  ◌≡◌, ◌↔◌, refl, sym, ap, ◌∙◌, subst, ◌++◌, [], ◌∷◌, List, Bool, true, false, ◌&&◌, some, Text,
  codes, Result, ok, map, find, Memᴰ, Bool-cases, inl, inr, text_eq, arith, if◌then◌else◌,
}
use elan.Common.Membership.{mem-map, mem_of_map}
use mathlib.Core.List.{append_cancel_right}
use elan.Common.External.{UuidCodec, Serde}
use elan.Iam.Types.{Subject}
use elan.Iam.Engine.{snapshot_engine}
use elan.Iam.CatalogFilter.{is_visible}
use elan.Query.Catalog.Table.{ArrowIpc}
use elan.Query.Catalog.Provider.Tables.{IsMap, names}
use elan.Query.Session.{SessionFactory, Session, build_for_user}
use elan.Query.Session.Datasets.{under}
use elan.Query.Http.{NamespaceInfo, DatasetSummary, summary, extract_subject, handle_catalog}
use elan.Tui.{TextArea, App, Task, load_catalog, Step, stay, on_catalog, handle_event}
use elan.Tui.Client.{Answer, Http, authorization, catalog, run_task}
use elan.Query.Http.Listing.{listed, entries, entries-handle_catalog, handle_catalog_iff}
use elan.Tui.View.{Style, catalog_items, dataset_items, namespace_line, dataset_line, items_of}

-- The lines up to the next heading.
abbrev pub to_heading : List (Text × Style) → List Text
to_heading [] = []
to_heading ((line, style) ∷ rest) = if style.bold then [] else line ∷ to_heading rest

-- The lines under the first heading of a namespace.
abbrev pub lines_under : Text → List (Text × Style) → List Text
lines_under ns [] = []
lines_under ns ((line, style) ∷ rest) =
    let later = lines_under ns rest in
    if style.bold && text_eq line (namespace_line ns) then to_heading rest else later

to_heading-items :
    (datasets : List DatasetSummary) (namespaces : List NamespaceInfo)
    → to_heading (dataset_items datasets ++ catalog_items namespaces) ≡ map dataset_line datasets
unfolding dataset_items catalog_items
to_heading-items [] [] = refl
to_heading-items [] (ns ∷ namespaces) = refl
to_heading-items (ds ∷ datasets) namespaces =
    ap (λ ls. dataset_line ds ∷ ls) (to_heading-items datasets namespaces)

lines_under-dataset_items :
    (ns : Text) (datasets : List DatasetSummary) (rest : List (Text × Style))
    → lines_under ns (dataset_items datasets ++ rest) ≡ lines_under ns rest
unfolding dataset_items
lines_under-dataset_items ns [] rest = refl
lines_under-dataset_items ns (ds ∷ datasets) rest = lines_under-dataset_items ns datasets rest

text_eq-namespace_line :
    (k ns : Text) → text_eq (namespace_line k) (namespace_line ns) ≡ text_eq k ns
text_eq-namespace_line k ns = ground arith

lines_under-catalog_items :
    (ns : Text) (infos : List NamespaceInfo)
    → lines_under ns (catalog_items infos) ≡ map dataset_line (entries ns infos)
unfolding catalog_items
lines_under-catalog_items ns [] = refl
lines_under-catalog_items ns (i ∷ infos) = elim (Bool-cases (text_eq i.name ns)) [
  | inl same ↦ rw (text_eq-namespace_line, same, entries, find) (to_heading-items i.datasets infos)
  | inr other ↦
      rw (text_eq-namespace_line, other, entries, find)
        (lines_under-dataset_items ns i.datasets (catalog_items infos)
          ∙ lines_under-catalog_items ns infos)
]

-- The line of a dataset that elan-query lists.
abbrev pub line_of : Text → Text
line_of name = dataset_line (summary name)

line_of_injective : (a b : Text) → line_of a ≡ line_of b → a ≡ b
unfolding summary
line_of_injective a b e =
    let tail : a ++ (codes " (" ++ (codes "unknown" ++ codes ")"))
        ≡ b ++ (codes " (" ++ (codes "unknown" ++ codes ")")) =
      cc in
    append_cancel_right a b _ tail

mem-line_of :
    (name : Text) (names : List Text) → Memᴰ (line_of name) (map line_of names) ↔ Memᴰ name names
mem-line_of name names = (
  λ m.
      let (other, here, e) = mem_of_map line_of (line_of name) names m in
      rw (line_of_injective name other e) here,
  λ m. mem-map line_of m,
)

map-map : (names : List Text) → map dataset_line (map summary names) ≡ map line_of names
map-map [] = refl
map-map (n ∷ names) = ap (λ ls. line_of n ∷ ls) (map-map names)

on_catalog_shown :
    {E : Type 0} (c : List NamespaceInfo) (app app' : App E) (tasks : List Task)
    → ◌≡◌ {A = Step E} (stay (on_catalog c app)) (some (app', tasks, false))
    → some c ≡ app'.catalog
unfolding on_catalog
on_catalog_shown c app app' tasks h = ground arith

extract_subject-authorization :
    (username : Text)
    → extract_subject (some (authorization username)) ≡ record { user_id = username; groups = [] }
unfolding extract_subject
extract_subject-authorization username = refl

module _ {E B : Type 0} (area : TextArea E) (http : Http B) (base_url : Text) (uuids : UuidCodec)
    (serde : Serde) (ipc : ArrowIpc) (factory : SessionFactory)
    (build : Subject → Result Text Session) where
  -- Once the client of a user loads the catalog, its pane lists under a namespace exactly the cached
  -- datasets of the namespace that the policies let the user select from. It is assumed that
  -- elan-query answers with success, that HTTP and JSON keep what it lists, that the session is that
  -- of the factory, and that the cached namespaces are distinct.
  pub catalog_shown_iff :
      (overflow_checks : Bool) (app app' : App E) (answer : Answer B) (tasks : List Task)
      (ns name : Text)
      → IsMap factory.datasets_by_ns
      → build (record { user_id = app.username; groups = [] })
        ≡ ok (
            build_for_user uuids serde ipc (record { user_id = app.username; groups = [] }) factory)
      → http.get (base_url ++ codes "/api/v1/catalog") (authorization app.username) ≡ ok answer
      → answer.is_success ≡ true
      → http.json_catalog answer.body
        ≡ ok (handle_catalog build (some (authorization app.username)))
      → handle_event overflow_checks area (run_task http base_url app.username load_catalog) app
        ≡ some (app', tasks, false)
      → Memᴰ (line_of name) (lines_under ns (items_of app'.catalog)) ↔ (
          Memᴰ name (names (under ns factory.datasets_by_ns))
          × (is_visible
                (snapshot_engine uuids serde factory.iam_engine)
                (record { user_id = app.username; groups = [] })
                ns
                name
              ≡ true))
  unfolding run_task catalog handle_event on_catalog items_of extract_subject
  catalog_shown_iff overflow_checks app app' answer tasks ns name distinct built got success kept
        handled =
      let header = some (authorization app.username) in
      let c = handle_catalog build header in
      let loaded : catalog http base_url app.username ≡ ok c = rw (got, success) kept in
      let handled' : ◌≡◌ {A = Step E} (stay (on_catalog c app)) (some (app', tasks, false)) =
        rw loaded at handled in
      let shown : some c ≡ app'.catalog = on_catalog_shown c app app' tasks handled' in
      let same : lines_under ns (items_of app'.catalog) ≡ map line_of (listed ns c) =
        ap (λ o. lines_under ns (items_of o)) (sym shown)
        ∙ lines_under-catalog_items ns c
        ∙ ap (map dataset_line) (entries-handle_catalog build header ns)
        ∙ map-map (listed ns c) in
      let (there, back) =
        handle_catalog_iff uuids serde ipc factory build header ns name distinct built in
      let (seen, drawn) = mem-line_of name (listed ns c) in
      (
        λ m. there (seen (subst (Memᴰ (line_of name)) same m)),
        λ h. subst (Memᴰ (line_of name)) (sym same) (drawn (back h)),
      )
