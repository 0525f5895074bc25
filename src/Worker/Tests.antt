-- ===== src/Worker/Tests.antt =====
-- Runs of the worker in the toy world, and its theorems at these.
use google_photos_picker.Base.{
  pos, ℕ, ◌≡◌, refl, some, none, List, [], ◌∷◌, lookup, insert, ◌*◌, second, arith, ◌≢◌, ◌+◌, true,
  minute,
}
use google_photos_picker.Errors.{wrap, text, other as other_error}
use google_photos_picker.Exec.{err, ok}
use google_photos_picker.System.{with_timeout}
use google_photos_picker.Cryptobox.Toy.{clockwork, toy_box}
use google_photos_picker.Http.Query.{encode_values}
use google_photos_picker.Stores.{ImportJob, TokenStore}
use google_photos_picker.Postgres.Database.{unreachable}
use google_photos_picker.Cryptobox.{seal, open_box}
use google_photos_picker.Postgres.Tokens.{TokenTable, load, save, decrypt_row}
use google_photos_picker.Postgres.Imports.{
  ImportTable, ImportRow, new_row, start_row, claim_next_pending, set_total, record_item_success,
  record_item_failure, mark_complete, mark_failed, pg_import_store, insert_job,
}
use google_photos_picker.Postgres.Imports.Reading.{whole_job, IsUp}
use google_photos_picker.Postgres.Imports.Progress.{
  view, pg_import_store-ProgressContract, pg_import_store-Accepts,
}
use google_photos_picker.Picker.{
  MediaItem, list_session_media_items, download_media_item, delete_picker_session,
}
use google_photos_picker.Client.{
  World, access_token, default_download_cap, default_max_decoded_bytes,
}
use google_photos_picker.Worker.{
  Worker, drain_once, process_job, finish_job, import_listed, import_items, import_one,
  default_poll_interval, default_job_timeout, job_context, authorize, out_of_fuel, empty,
}
use google_photos_picker.StateStore.{new_state_store}
use google_photos_picker.Picker.Ending.{TakesTime}
use google_photos_picker.Postgres.Imports.Rows.{Stmt, after}
use google_photos_picker.Postgres.Imports.Lifecycle.{after-IsConsistent}
use google_photos_picker.Postgres.Imports.Queue.{
  IsWithin, waiting_jobs, pg_import_store-NeverRequeues,
}
use google_photos_picker.Postgres.Imports.Emptying.{NothingFree, drain_once-NothingFree}
use google_photos_picker.Worker.Draining.{drain_once_ends}
use google_photos_picker.Toy.{
  toy_config, toy_sink, toy_http, toy_client, toy_oauth2, toy_readers, toy_database, new_world,
  background, item,
}
use google_photos_picker.Worker.Counting.{IsAfter}
use google_photos_picker.Worker.Importing.{SavedFor, import_items-IsAfter}
use google_photos_picker.Worker.Completing.{IsImported, import_listed-IsImported}
use google_photos_picker.Worker.GivingUp.{listed, failed_or_same, process_job-list_failed}

abbrev toy_worker : Worker TokenTable ImportTable ℕ
toy_worker = record {
  client = toy_client;
  poll_interval = default_poll_interval;
  job_timeout = default_job_timeout;
}

-- Alice is connected, and has one job.
abbrev start : World TokenTable ImportTable ℕ
start = record new_world {
  tokens =
      (toy_client.tokens.save background
        (record {
          user_id = "alice";
          refresh_token = "1//r";
          access_token = "ya29";
          expires_at = 9000 * second;
          scopes = some [];
        })
        ([], 1)).1.0;
  imports = ("job-1", new_row "alice" "s1" none 5) ∷ [];
}

run : Unit {0}
unfolding drain_once process_job list_session_media_items access_token finish_job import_listed
    with_timeout import_items import_one download_media_item delete_picker_session encode_values
    lookup insert clockwork toy_box seal open_box load save decrypt_row claim_next_pending set_total
    record_item_success record_item_failure mark_complete mark_failed view
run = tt

-- Of the three items of the session the second is missing at Google, and the others are saved.
drained :
    let w = (drain_once clockwork toy_oauth2 toy_readers toy_worker 3 5 background start).1 in
    (j : ImportRow) × (lookup "job-1" w.imports ≡ some j)
    × (j.saved_ids ≡ "saved/a" ∷ "saved/c" ∷ [])
    × (j.failed_items ≡ 1)
unfolding run
drained = (_, refl, refl, refl)

emptied : (drain_once clockwork toy_oauth2 toy_readers toy_worker 3 5 background start).0 ≡ empty
unfolding run
emptied = refl

drain_once-NothingFree_example :
    NothingFree toy_database
      (drain_once clockwork toy_oauth2 toy_readers toy_worker 3 5 background start).1.env
      (drain_once clockwork toy_oauth2 toy_readers toy_worker 3 5 background start).1.imports
drain_once-NothingFree_example =
    drain_once-NothingFree toy_database clockwork toy_oauth2 toy_readers toy_worker refl 5
      background 3 start emptied

abbrev job : ImportJob
job = whole_job "job-1" (start_row 6 (new_row "alice" "s1" none 5))

abbrev claimed : World TokenTable ImportTable ℕ
claimed = record start { imports = ("job-1", start_row 6 (new_row "alice" "s1" none 5)) ∷ [] }

had_job : view claimed.imports "job-1" ≡ some job
unfolding run
had_job = refl

abbrev items : List MediaItem
items = item "a" ∷ item "b" ∷ item "c" ∷ []

database-IsUp : IsUp toy_database background
database-IsUp x = (refl, refl, refl)

import_items-IsAfter_example :
    (lost : ℕ) × IsAfter
      (SavedFor clockwork toy_oauth2 toy_readers toy_worker background job.user_id job.id
        job.metadata)
      job
      (view
        (import_items clockwork toy_oauth2 toy_readers toy_worker background job items
          claimed).imports
        "job-1")
      items
      lost
import_items-IsAfter_example =
    import_items-IsAfter clockwork toy_oauth2 toy_readers toy_worker view
      (pg_import_store-ProgressContract toy_database (λ x. refl)) background job items claimed job
      had_job

import_listed-IsImported_example :
    IsImported
      (SavedFor clockwork toy_oauth2 toy_readers toy_worker background job.user_id job.id
        job.metadata)
      job
      (view
        (import_listed clockwork toy_oauth2 toy_readers toy_worker background job items
          claimed).imports
        "job-1")
      items
import_listed-IsImported_example =
    import_listed-IsImported clockwork toy_oauth2 toy_readers toy_worker view
      (pg_import_store-ProgressContract toy_database (λ x. refl)) background 2147483647
      (pg_import_store-Accepts toy_database background database-IsUp) job items claimed job had_job
      (omega arith) (omega arith)

-- A worker that gives a job one second: the listing runs into it.
abbrev hasty_worker : Worker TokenTable ImportTable ℕ
hasty_worker = record toy_worker { job_timeout = pos second }

too_late :
    (listed toy_database clockwork toy_oauth2 toy_readers hasty_worker refl 5 background job
      claimed).0
    ≡ err (other_error "context deadline exceeded")
unfolding run
too_late = refl

process_job-list_failed_example :
    let r = process_job clockwork toy_oauth2 toy_readers hasty_worker 5 background job claimed in
    (r.0 ≡ err (wrap "list media items" (other_error "context deadline exceeded")))
    × (view r.1.imports "job-1"
        ≡ some (
            failed_or_same
              (unreachable toy_database
                (job_context clockwork toy_oauth2 toy_readers hasty_worker background claimed)
                (listed toy_database clockwork toy_oauth2 toy_readers hasty_worker refl 5 background
                  job claimed).1.env)
              true
              (text (other_error "context deadline exceeded"))
              job))
process_job-list_failed_example =
    process_job-list_failed toy_database clockwork toy_oauth2 toy_readers hasty_worker refl 5
      background job claimed (other_error "context deadline exceeded") job too_late had_job

-- The job is still running then, and nobody will claim it again.
still_running :
    view
      (process_job clockwork toy_oauth2 toy_readers hasty_worker 5 background job claimed).1.imports
      "job-1"
    ≡ some job
unfolding run
still_running = refl

-- A client whose users are all connected, with a token that Google refreshes each time.
abbrev open_tokens : TokenStore (Unit {0}) ℕ
open_tokens = record {
  save = λ ctx rec w. (ok tt, w);
  load = λ ctx user_id w. (
    ok (record {
      user_id = user_id;
      refresh_token = "1//r";
      access_token = "";
      expires_at = 0;
      scopes = none;
    }),
    w,
  );
  update_access = λ ctx user_id access expiry w. (ok tt, w);
  status = λ ctx user_id w. (ok (record { connected = true; scopes = none }), w);
  delete = λ ctx user_id w. (ok "1//r", w);
}

abbrev open_worker : Worker (Unit {0}) ImportTable ℕ
open_worker = record {
  client = record {
    oauth = toy_config;
    tokens = open_tokens;
    imports = pg_import_store toy_database;
    sink = toy_sink;
    download_cap = default_download_cap;
    max_decoded_bytes = default_max_decoded_bytes;
    http_client = toy_http;
    now = λ x. x;
  };
  poll_interval = default_poll_interval;
  job_timeout = default_job_timeout;
}

abbrev open_world : World (Unit {0}) ImportTable ℕ
open_world = record {
  states = new_state_store;
  tokens = tt;
  imports = start.imports;
  revoking = [];
  env = 1;
}

open_TakesTime :
    TakesTime clockwork toy_http (authorize clockwork toy_oauth2 toy_readers open_worker)
unfolding run
open_TakesTime = record {
  done_fails = λ ctx req x text h. (other_error text, ground arith);
  request_takes = λ ctx req x. ground arith;
  auth_takes = λ ctx user_id w. ground arith;
}

one_waits : IsWithin 1 start.imports
unfolding run after insert_job waiting_jobs
one_waits = (
  after-IsConsistent 5 [] (record { unique = tt; rows = λ id row e. ground arith })
      (Stmt.insert "job-1" "alice" "s1" none),
  omega arith,
)

drain_once_ends_example :
    (drain_once clockwork toy_oauth2 toy_readers open_worker 2
      (35 * minute + 1)
      background
      open_world).0
    ≢ out_of_fuel
drain_once_ends_example =
    drain_once_ends clockwork toy_oauth2 toy_readers open_worker IsWithin
      (pg_import_store-NeverRequeues toy_database) open_TakesTime (35 * minute + 1) (omega arith)
      background 2 1 open_world one_waits (omega arith)
