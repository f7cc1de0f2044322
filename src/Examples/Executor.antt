-- ===== src/Examples/Executor.antt =====
-- Examples for the executor: its tables, and a scan that meets its SQL service.
use elan.Common.{
  ◌≡◌, refl, ap, ◌∙◌, ◌++◌, [], ◌∷◌, List, true, none, Text, codes, Result, ok, err, append_assoc,
  append-nil, sym,
}
use elan.Query.RemoteScan.Execute.{RecordBatch, Remote, dispatch}
use elan.Executor.Config.{
  parquet_mount, csv_mount, table_name, ExecutorConfig, build_providers, pushed, register_all,
  register_mount, with_store, default_config,
}
use elan.Executor.SqlService.{
  StatusCode, okay, bad_request, internal_server_error, Arrow, SqlServiceState, session, encode,
  write_all, empty_stream, handle_sql,
}
use elan.Executor.SqlService.Dispatch.{received, IsFaithful, outcome, dispatch-handle_sql}
use elan.Examples.Batches.{batches, run, write_batch, run-write_batch}
use elan.Examples.Sessions.{Tables, add_at, api}

abbrev pub cfg : ExecutorConfig
cfg = record default_config {
  datasets =
      csv_mount (codes "Trades") (codes "t.csv") true
      ∷ parquet_mount (codes "prices") (codes "p.parquet")
      ∷ [];
}

abbrev pub opened : List (Text × Text)
opened = (codes "Trades", codes "t.csv") ∷ (codes "prices", codes "p.parquet") ∷ []

pub all_opened : build_providers api cfg ≡ ok opened
unfolding build_providers register_mount with_store table_name add_at pushed
all_opened = refl

-- A statement is answered by one batch of no columns.
abbrev pub answer : Result Text (List RecordBatch)
answer = ok (record { schema = []; rows = [] ∷ [] } ∷ [])

abbrev pub arrow : Arrow Tables
arrow = record {
  from_utf8 = λ bytes. ok bytes;
  sql = λ ctx sql. answer;
  new_writer = λ schema. ok [];
  write = λ w b. ok (w ++ write_batch b);
  finish = λ w. ok w;
}

abbrev text_or_default : Result Text Text → Text
text_or_default (ok t) = t
text_or_default (err e) = []

abbrev pub status_text : StatusCode → Text
status_text okay = codes "200 OK"
status_text bad_request = codes "400 Bad Request"
status_text internal_server_error = codes "500 Internal Server Error"

abbrev state : SqlServiceState Text
state = record { providers = []; object_store = none }

-- The network: every statement reaches the executor.
abbrev pub remote : Remote
remote = record {
  post = λ url sql. ok (record {
    is_success = true;
    status = codes "200 OK";
    body = ok (write_batch (record { schema = []; rows = [] ∷ [] }));
  });
  text_or_default = text_or_default;
  read_stream = λ bytes. run bytes (batches [] ∷ []);
}

abbrev bytes_of : List RecordBatch → Text
bytes_of [] = []
bytes_of (b ∷ bs) = write_batch b ++ bytes_of bs

write_all-bytes : (w : Text) (bs : List RecordBatch) → write_all arrow w bs ≡ ok (w ++ bytes_of bs)
unfolding write_all
write_all-bytes w [] = ap ok (sym (append-nil w))
write_all-bytes w (b ∷ bs) =
    write_all-bytes (w ++ write_batch b) bs ∙ ap ok (append_assoc w (write_batch b) (bytes_of bs))

run-bytes : (bs read : List RecordBatch) → run (bytes_of bs) (batches read ∷ []) ≡ ok (read ++ bs)
unfolding run
run-bytes [] read = ap ok (sym (append-nil read))
run-bytes (b ∷ bs) read =
    run-write_batch b read (bytes_of bs)
    ∙ run-bytes bs (read ++ b ∷ [])
    ∙ ap ok (append_assoc read (b ∷ []) bs)

kept :
    (b : RecordBatch) (bs : List RecordBatch)
    → (bytes : Text) × (encode arrow b bs ≡ ok bytes) × (run bytes (batches [] ∷ []) ≡ ok (b ∷ bs))
unfolding encode
kept b bs = (bytes_of (b ∷ bs), write_all-bytes [] (b ∷ bs), run-bytes (b ∷ bs) [])

pub faithful : IsFaithful api arrow remote status_text
unfolding run empty_stream
faithful = record {
  text_kept = λ t. refl;
  stream_kept = λ b bs uniform. kept b bs;
  empty_kept = refl;
}

abbrev pub unmounted : Tables
unmounted n = none

reached :
    remote.post (codes "http://h:1/sql") (codes "SELECT 1")
    ≡ ok (received api arrow remote status_text (handle_sql arrow api state (codes "SELECT 1")))
unfolding handle_sql encode session with_store register_all
reached = refl

ready : session api state ≡ ok unmounted
unfolding session with_store register_all
ready = refl

dispatch-handle_sql_example :
    dispatch remote [] (codes "http://h:1/sql") (codes "SELECT 1")
    ≡ outcome api arrow remote status_text [] answer
dispatch-handle_sql_example =
    dispatch-handle_sql api arrow remote status_text [] faithful state unmounted
      (codes "http://h:1/sql") (codes "SELECT 1") refl ready tt reached
