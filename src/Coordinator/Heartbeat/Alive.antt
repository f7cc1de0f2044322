-- ===== src/Coordinator/Heartbeat/Alive.antt =====
-- The heartbeats of a coordinator meet the heartbeat service of elan-central.
use elan.Common.{
  take, false, ℕ, zero, suc, ◌+◌, ◌≡◌, refl, ap, ◌∙◌, [], ◌∷◌, ◌++◌, List, Bool, true, ◌&&◌, ◌||◌,
  Option, none, some, Text, Result, ok, err, map, any, contains, arith, text_eq_refl, ltb,
}
use elan.Domain.Errors.{Status}
use elan.Central.CatalogStore
use elan.Central.CatalogStore.{CoordinatorRow, CatalogStore, is_live}
use elan.Central.CoordinatorService.{heartbeat}
use elan.Central.CoordinatorService.Heartbeats.{
  heard, is_registered, heartbeat-is_live, is_registered-seen,
}
use elan.Coordinator.Heartbeat.{
  HeartbeatRequest, request_stream, Line, stream_error, loop_failed, listen, heartbeat_loop, Action,
  log, sleep_secs, after, run,
}

-- An open call: the clock at its opening, the requests that get through to central, the answers that
-- get back, and the error that the streams break with, or none if they end.
pub record Stream : Type 0 where
  pub opened : ℕ
  pub delivered : ℕ
  pub received : ℕ
  pub broken : Option Status

-- A call to central is refused before any request gets through, or it is opened.
pub data Connection : Type 0 where
  refused : Status → Connection
  streaming : Stream → Connection

abbrev pub failure : {A : Type 0} → Option Status → List (Result Status A)
failure none = []
failure (some e) = err e ∷ []

module _ (coordinator_id : Text) (now : ℕ → ℕ) where
  -- What central receives, and what the coordinator receives back.
  abbrev pub sent : Stream → List (Result Status Text)
  sent c =
      map (λ (r : HeartbeatRequest). ok r.coordinator_id)
        (request_stream coordinator_id (λ k. c.opened + k) 0 c.delivered)
      ++ failure c.broken

  abbrev pub answered : List Bool → Stream → List (Result Status Bool)
  answered answers c = map ok (take c.received answers) ++ failure c.broken

  -- Central serves the calls one after the other; the answers are for `run`.
  pub served :
      List Connection
      → CatalogStore
      → List (Result Status (List (Result Status Bool))) × CatalogStore
  served [] s = ([], s)
  served (refused e ∷ cs) s = let (responses, u) = served cs s in (err e ∷ responses, u)
  served (streaming c ∷ cs) s =
      let (answers, t) = heartbeat now 0 (sent c) s in
      let (responses, u) = served cs t in (ok (answered answers c) ∷ responses, u)

abbrev pub delivers : Connection → Bool
delivers (refused e) = false
delivers (streaming c) = ltb 0 c.delivered

-- What the loop does about an error, after the lines that were logged before it.
abbrev pub pause : Status → List Action → List Action
pause e rest = log (loop_failed e) ∷ sleep_secs 30 ∷ rest

abbrev pub pauses : List Connection → List Action
pauses [] = []
pauses (refused e ∷ cs) = pause e (pauses cs)
pauses (streaming c ∷ cs) = elim c.broken [
  | none ↦ pauses cs
  | some e ↦ log (stream_error e) ∷ pause e (pauses cs)
]

is_registered-heartbeat :
    (now : ℕ → ℕ) (n : ℕ) (stream : List (Result Status Text)) (s : CatalogStore) (id : Text)
    → is_registered id (heartbeat now n stream s).1.coordinators ≡ is_registered id s.coordinators
unfolding heartbeat CatalogStore.heartbeat
is_registered-heartbeat now n [] s id = refl
is_registered-heartbeat now n (err e ∷ stream) s id = refl
is_registered-heartbeat now n (ok sender ∷ stream) s id =
    is_registered-heartbeat now (n + 1) stream (CatalogStore.heartbeat (now n) sender s).1 id
    ∙ is_registered-seen (now n) sender id s.coordinators

-- Only answers of a coordinator that is alive, and then the end.
abbrev ended : Option Status → Result Status (Unit {0}) × List Line
ended none = (ok tt, [])
ended (some e) = (err e, stream_error e ∷ [])

listen-alive :
    (n : ℕ) (ids : List Text) (o : Option Status)
    → listen (map ok (take n (map (λ id. true) ids)) ++ failure o) ≡ ended o
unfolding listen
listen-alive zero ids none = refl
listen-alive zero ids (some e) = refl
listen-alive (suc n) [] none = refl
listen-alive (suc n) [] (some e) = refl
listen-alive (suc n) (id ∷ ids) o = listen-alive n ids o

run-streaming :
    (c : Stream) (cs : List Connection) (ids : List Text)
    (responses : List (Result Status (List (Result Status Bool))))
    → run responses ≡ pauses cs
    → run (ok (map ok (take c.received (map (λ id. true) ids)) ++ failure c.broken) ∷ responses)
      ≡ pauses (streaming c ∷ cs)
unfolding run heartbeat_loop after
run-streaming c cs ids responses h = rw (listen-alive c.received ids c.broken) (last c.broken)
  where
    last :
        (o : Option Status)
        → map log (ended o).1 ++ (after (ended o).0 ++ run responses)
          ≡ elim o [ none ↦ pauses cs | some e ↦ log (stream_error e) ∷ pause e (pauses cs) ]
    last none = h
    last (some e) = ap (λ (x : List Action). log (stream_error e) ∷ pause e x) h

run-refused :
    (e : Status) (cs : List Connection)
    (responses : List (Result Status (List (Result Status Bool))))
    → run responses ≡ pauses cs
    → run (err e ∷ responses) ≡ pauses (refused e ∷ cs)
unfolding run heartbeat_loop after
run-refused e cs responses h = ap (pause e) h

run-nil : run [] ≡ []
unfolding run
run-nil = refl

module _ (id : Text) (now : ℕ → ℕ) where
  heard-sent :
      (opened elapsed n : ℕ) (o : Option Status)
      → contains
          (heard (
            map
              (λ (r : HeartbeatRequest). ok r.coordinator_id)
              (request_stream id (λ k. opened + k) elapsed n)
            ++ failure o))
          id
        ≡ ltb 0 n
  unfolding request_stream
  heard-sent opened elapsed zero none = refl
  heard-sent opened elapsed zero (some e) = refl
  heard-sent opened elapsed (suc n) o = rw (text_eq_refl id) (ground arith)

  -- Central serves the calls of a coordinator one after the other; each is refused, or delivers some
  -- requests and gives some answers back, and then ends or breaks. Afterwards a registered coordinator
  -- that got one request through is alive, and one that is not registered stays as it was. The client
  -- never learns the difference: all that it logs are the errors, the one of a stream and then the one
  -- of the loop, and after each it waits 30 seconds, but not after a stream that ended.
  pub run-served :
      (cs : List Connection) (s : CatalogStore)
      → (run (served id now cs s).0 ≡ pauses cs)
        × (is_live (served id now cs s).1.coordinators id
            ≡ (is_live s.coordinators id || (any delivers cs && is_registered id s.coordinators)))
  unfolding served
  run-served [] s = (run-nil, ground arith)
  run-served (refused e ∷ cs) s =
      let (ran, later) = run-served cs s in (run-refused e cs (served id now cs s).0 ran, later)
  run-served (streaming c ∷ cs) s =
      let (answers, live) = heartbeat-is_live now 0 (sent id now c) s id in
      let t = (heartbeat now 0 (sent id now c) s).1 in
      let (ran, later) = run-served cs t in
      let here = heard-sent c.opened 0 c.delivered c.broken in
      let kept = is_registered-heartbeat now 0 (sent id now c) s id in
      (
        ap (λ bs. run (ok (answered id now bs c) ∷ (served id now cs t).0)) answers
            ∙ run-streaming c cs (heard (sent id now c)) (served id now cs t).0 ran,
        later ∙ ground (arith, here, kept, live),
      )
