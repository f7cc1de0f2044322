-- ===== src/Coordinator/Heartbeat.antt =====
-- crates/elan-coordinator/src/heartbeat.rs. A stream is the list of its items, and a run of the
-- endless loop is told by the answers of central to its calls.
pub mod Alive
use elan.Common.{
  ℕ, zero, suc, ◌+◌, ◌*◌, [], ◌∷◌, ◌++◌, List, Bool, true, false, Text, Result, ok, err, map,
}
use elan.Domain.Errors.{Status}

pub record HeartbeatRequest : Type 0 where
  pub coordinator_id : Text
  pub sent_at : ℕ

-- The first items of the request stream: one at once, and one after each sleep of 15 seconds.
-- `now k` is the clock k seconds after the call.
unfoldable pub request_stream : Text → (ℕ → ℕ) → ℕ → ℕ → List HeartbeatRequest
request_stream coordinator_id now elapsed zero = []
request_stream coordinator_id now elapsed (suc n) =
    record { coordinator_id = coordinator_id; sent_at = now elapsed }
    ∷ request_stream coordinator_id now (elapsed + 15) n

pub data Line : Type 0 where
  not_alive : Line
  stream_error : Status → Line
  loop_failed : Status → Line

-- The loop over the answers, with the lines that it logs.
pub listen : List (Result Status Bool) → Result Status (Unit {0}) × List Line
listen [] = (ok tt, [])
listen (ok true ∷ responses) = listen responses
listen (ok false ∷ responses) = let (r, lines) = listen responses in (r, not_alive ∷ lines)
listen (err e ∷ responses) = (err e, stream_error e ∷ [])

-- `heartbeat_loop`, over the answer of central to the call.
unfoldable pub heartbeat_loop :
    Result Status (List (Result Status Bool)) → Result Status (Unit {0}) × List Line
unfolding listen
heartbeat_loop (err e) = (err e, [])
heartbeat_loop (ok response_stream) = listen response_stream

pub data Action : Type 0 where
  log : Line → Action
  sleep_secs : ℕ → Action

-- After an error the loop waits, after the end of the stream it does not.
after : Result Status (Unit {0}) → List Action
after (ok _) = []
after (err e) = log (loop_failed e) ∷ sleep_secs 30 ∷ []

-- `run`, over the answers to its calls.
unfoldable pub run : List (Result Status (List (Result Status Bool))) → List Action
unfolding after
run [] = []
run (response ∷ responses) =
    let (result, lines) = heartbeat_loop response in
    map log lines ++ (after result ++ run responses)
