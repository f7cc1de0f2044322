-- ===== src/Tui/Running.antt =====
-- The client over any course of events: what its state keeps, and where it panics.
use elan.Common.{
  ℕ, suc, ◌+◌, ◌^◌, ◌≤◌, ◌<◌, ◌≡◌, ◌↔◌, ◌⊎◌, sym, subst, ◌++◌, [], ◌∷◌, List, Bool, true, false,
  none, some, Text, Result, length, length-append, length-drop, arith,
}
use mathlib.Core.Path.{subst₂}
use elan.Query.Http.{QueryResponse, NamespaceInfo}
use elan.Query.RemoteScan.Execute.{succ_u16}
use elan.Tui.{
  Pane, down, KeyEvent, TextArea, App, Task, load_catalog, run_query, AppEvent, next_pane,
  push_audit, on_query_result, on_catalog, new_app, execute_query, handle_key, handle_event,
}

abbrev pub query_count : List Task → ℕ
query_count [] = 0
query_count (load_catalog ∷ ts) = query_count ts
query_count (run_query sql session_id ∷ ts) = suc (query_count ts)

-- The client and the number of its queries that have not ended.
pub record World (E : Type 0) : Type 0 where
  pub app : App E
  pub open_queries : ℕ

module _ {E : Type 0} (overflow_checks : Bool) (area : TextArea E) where
  -- A round of the loop that goes on. A query's result arrives only while one is open.
  pub data Round : World E → World E → Type 0 where
    pressed :
        {w w' : World E} (k : KeyEvent) (ts : List Task)
        → handle_event overflow_checks area (AppEvent.key k) w.app ≡ some (w'.app, ts, false)
        → w'.open_queries ≡ w.open_queries + query_count ts
        → Round w w'
    informed :
        {w w' : World E} (msg : Text)
        → handle_event overflow_checks area (AppEvent.audit_message msg) w.app
          ≡ some (w'.app, [], false)
        → w'.open_queries ≡ w.open_queries
        → Round w w'
    loaded :
        {w w' : World E} (c : List NamespaceInfo)
        → handle_event overflow_checks area (AppEvent.catalog_loaded c) w.app
          ≡ some (w'.app, [], false)
        → w'.open_queries ≡ w.open_queries
        → Round w w'
    ended :
        {w w' : World E} (r : Result Text QueryResponse)
        → handle_event overflow_checks area (AppEvent.query_result r) w.app
          ≡ some (w'.app, [], false)
        → w.open_queries ≡ suc w'.open_queries
        → Round w w'

  pub data Reach (w : World E) : World E → Type 0 where
    here : Reach w w
    next : {u v : World E} → Reach w u → Round u v → Reach w v

  pub record IsSound (app : App E) (open_queries : ℕ) : Type 0 where
    pub log_bounded : length app.audit_log ≤ 500
    pub results_bounded : app.results_scroll < 2 ^ 16
    pub audit_bounded : app.audit_scroll < 2 ^ 16
    pub loading : app.is_loading ≡ true → 0 < open_queries

  handle_key-IsSound :
      (k : KeyEvent) (app app' : App E) (ts : List Task) (n : ℕ)
      → IsSound app n
      → handle_key overflow_checks area k app ≡ some (app', ts, false)
      → IsSound app' (n + query_count ts)
  unfolding handle_key execute_query next_pane succ_u16
  handle_key-IsSound k app app' ts n h e = ground arith

  push_audit-IsSound :
      (msg : Text) (app : App E) (n : ℕ) → IsSound app n → IsSound (push_audit msg app) n
  unfolding push_audit
  push_audit-IsSound msg app n h =
      let l = length-append app.audit_log (msg ∷ []) in
      let d = length-drop 1 (app.audit_log ++ msg ∷ []) in
      record {
        log_bounded = ground arith;
        results_bounded = h.results_bounded;
        audit_bounded = h.audit_bounded;
        loading = h.loading;
      }

  answer-IsSound :
      (r : Result Text QueryResponse) (app : App E) (n : ℕ)
      → IsSound app (suc n)
      → IsSound (on_query_result r app) n
  unfolding on_query_result
  answer-IsSound r app n h = ground arith

  abbrev IsSoundWorld : World E → Type 0
  IsSoundWorld w = IsSound w.app w.open_queries

  Round-IsSound : {w w' : World E} → Round w w' → IsSoundWorld w → IsSoundWorld w'
  unfolding handle_event on_catalog
  Round-IsSound {w} {w'} (pressed k ts e n) h =
      subst (IsSound w'.app) (sym n) (handle_key-IsSound k w.app w'.app ts w.open_queries h e)
  Round-IsSound {w} {w'} (informed msg e n) h =
      let same : push_audit msg w.app ≡ w'.app = cc in
      subst₂ IsSound same (sym n) (push_audit-IsSound msg w.app w.open_queries h)
  Round-IsSound {w} {w'} (loaded c e n) h = ground arith
  Round-IsSound {w} {w'} (ended r e n) h =
      let same : on_query_result r w.app ≡ w'.app = cc in
      subst (λ a. IsSound a w'.open_queries) same
        (answer-IsSound r w.app w'.open_queries (subst (IsSound w.app) n h))

  Reach-IsSoundWorld : {w w' : World E} → IsSoundWorld w → Reach w w' → IsSoundWorld w'
  Reach-IsSoundWorld h here = h
  Reach-IsSoundWorld h (next r s) = Round-IsSound s (Reach-IsSoundWorld h r)

  abbrev pub started : E → Text → Text → World E
  started blank session_id username = record {
    app = new_app area blank session_id username;
    open_queries = 0;
  }

  -- Over any course of key presses, messages, catalogs and answers, the audit log has at most 500
  -- lines, both scroll positions fit 16 bits, and the client shows that it is loading only while a
  -- query is open.
  pub started-IsSound :
      (blank : E) (session_id username : Text) {w : World E}
      → Reach (started blank session_id username) w
      → IsSound w.app w.open_queries
  unfolding new_app
  started-IsSound blank session_id username r =
      Reach-IsSoundWorld
        (record {
          log_bounded = omega arith;
          results_bounded = omega arith;
          audit_bounded = omega arith;
          loading = λ h. cc;
        })
        r

  -- A key press panics exactly if overflow checks are on, the key is Down, and the scroll position
  -- of the active pane, results or audit, is 65535.
  pub handle_key-panic :
      (k : KeyEvent) (app : App E)
      → (handle_key overflow_checks area k app ≡ none) ↔ (
          (overflow_checks ≡ true)
          × (k.code ≡ down)
          × (((app.active_pane ≡ Pane.results) × (app.results_scroll ≡ 65535))
              ⊎ ((app.active_pane ≡ Pane.audit) × (app.audit_scroll ≡ 65535))))
  unfolding handle_key execute_query next_pane succ_u16
  handle_key-panic k app = ground arith
