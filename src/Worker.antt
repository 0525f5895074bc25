-- ===== src/Worker.antt =====
-- worker.go: the import worker, which claims pending jobs one by one and imports the items that the
-- user picked. Logging is left out. A worker's calls are not interleaved with others' here; for such
-- interleavings see Service and Postgres/Imports.
pub mod Counting
pub mod Importing
pub mod Completing
pub mod GivingUp
pub mod Draining
pub mod Emptying
pub mod Effects
mod Tests
use google_photos_picker.Base.{
  ℤ, pos, negsuc, ℕ, zero, suc, ◌+◌, ◌*◌, String, Option, none, some, List, [], ◌∷◌, length, second,
  minute, if◌then◌else◌, eqb,
}
use google_photos_picker.Errors.{Error, wrap, text, detail, sentinel, invalid_config}
use google_photos_picker.Exec.{
  Result, ok, err, Exec, Context, pure, fail, attempt, wrapping, ◌>>=◌, ◌>>◌, continue,
}
use google_photos_picker.System.{System, with_timeout}
use google_photos_picker.Stores.{ImportJob, ImportStore, Metadata}
use google_photos_picker.OAuth.{Oauth2}
use google_photos_picker.Sink.{PhotoSink, DownloadedPhoto}
use google_photos_picker.Picker.{
  MediaItem, Readers, list_session_media_items, download_media_item, delete_picker_session,
}
use google_photos_picker.Client.{
  Client, World, on_tokens, on_imports, on_env, access_token, required,
}

abbrev pub default_poll_interval : ℤ
default_poll_interval = pos (2 * second)

abbrev pub default_job_timeout : ℤ
default_job_timeout = pos (35 * minute)

-- The time that a `time.Duration` leaves before its deadline: none where it is negative.
abbrev pub remaining : ℤ → ℕ
remaining (pos n) = n
remaining (negsuc n) = 0

pub record WorkerConfig (T J X : Type 0) : Type 0 where
  pub client : Option (Client T J X)
  pub poll_interval : ℤ
  pub job_timeout : ℤ

pub record Worker (T J X : Type 0) : Type 0 where
  pub client : Client T J X
  pub poll_interval : ℤ
  pub job_timeout : ℤ

abbrev or_default_duration : ℤ → ℤ → ℤ
or_default_duration (pos n) d = if eqb n 0 then d else pos n
or_default_duration (negsuc n) d = negsuc n

-- `NewWorker`
unfoldable pub new_worker : {T J X : Type 0} → WorkerConfig T J X → Result (Worker T J X)
new_worker cfg = elim cfg.client [
  | none ↦ err (required "Client is required")
  | some client ↦ ok (record {
    client = client;
    poll_interval = or_default_duration cfg.poll_interval default_poll_interval;
    job_timeout = or_default_duration cfg.job_timeout default_job_timeout;
  })
]

-- How a drain ends: the context is done, a claim failed, the queue is empty, or the fuel ran out.
pub data Drained : Type 0 where
  cancelled claim_failed empty out_of_fuel : Drained

-- How a call of `ProcessJob` ends; `unfinished` only where the fuel of the listing ran out.
pub data Processed : Type 0 where
  succeeded unfinished : Processed

module _ {T J X : Type 0} (sys : System X) (lib : Oauth2 X) (readers : Readers)
    (w : Worker T J X) where
  abbrev pub authorize : Context X → String → Exec (T × X) String
  authorize = access_token sys lib readers w.client

  abbrev pub sink_error : Error → Error
  sink_error = wrap "sink"

  -- `importOne`
  unfoldable pub import_one :
      Context X → String → String → MediaItem → Metadata → Exec (World T J X) (Unit {0})
  import_one ctx user_id job_id item meta = do
    photo ← on_tokens (
        download_media_item readers w.client.http_client authorize ctx user_id item
          w.client.download_cap w.client.max_decoded_bytes)
    let given = record photo { job_metadata = meta }
    saved_id ← wrapping sink_error (on_env (w.client.sink.save_photo ctx user_id job_id given))
    on_imports (w.client.imports.record_item_success ctx job_id saved_id)

  -- What follows one call of `importOne`: a failure is counted, and an error of that is dropped.
  abbrev pub after_item : Context X → String → Result (Unit {0}) → Exec (World T J X) (Unit {0})
  after_item ctx job_id (ok _) world = (ok tt, world)
  after_item ctx job_id (err _) world =
      (ok tt, (on_imports (w.client.imports.record_item_failure ctx job_id) world).1)

  abbrev pub import_item : Context X → ImportJob → MediaItem → Exec (World T J X) (Unit {0})
  import_item ctx job item world =
      let (r, world') = import_one ctx job.user_id job.id item job.metadata world in
      after_item ctx job.id r world'

  -- The loop over the items.
  unfoldable pub import_items : Context X → ImportJob → List MediaItem → World T J X → World T J X
  import_items ctx job [] world = world
  import_items ctx job (item ∷ items) world =
      import_items ctx job items (import_item ctx job item world).1

  -- What `ProcessJob` does once the items are listed. The errors of these calls are logged, or dropped.
  unfoldable pub import_listed : Context X → ImportJob → List MediaItem → World T J X → World T J X
  import_listed ctx job items world =
      let (_, counted) = on_imports (w.client.imports.set_total ctx job.id (length items)) world in
      let imported = import_items ctx job items counted in
      let (_, finished) = on_imports (w.client.imports.mark_complete ctx job.id) imported in
      (on_tokens
        (delete_picker_session readers w.client.http_client authorize ctx job.user_id
          job.session_id)
        finished).1

  abbrev give_up : Context X → ImportJob → Error → World T J X → World T J X
  give_up ctx job e world = (on_imports (w.client.imports.mark_failed ctx job.id (text e)) world).1

  unfoldable pub finish_job :
      Context X → ImportJob → Result (Option (List MediaItem)) → Exec (World T J X) Processed
  finish_job ctx job (err e) world = (err (wrap "list media items" e), give_up ctx job e world)
  finish_job ctx job (ok none) world = (ok unfinished, world)
  finish_job ctx job (ok (some items)) world = (ok succeeded, import_listed ctx job items world)

  -- `context.WithTimeout(ctx, w.jobTimeout)`, called now.
  abbrev pub job_context : Context X → World T J X → Context X
  job_context ctx world = with_timeout sys ctx (sys.now world.env) (remaining w.job_timeout)

  -- `ProcessJob`, with fuel for the pages of the session.
  unfoldable pub process_job : ℕ → Context X → ImportJob → Exec (World T J X) Processed
  process_job fuel ctx job world =
      let job_ctx = job_context ctx world in
      let (r, world') =
        on_tokens
          (list_session_media_items readers w.client.http_client authorize fuel job_ctx job.user_id
            job.session_id)
          world in
      finish_job job_ctx job r world'

  abbrev claim : Context X → Exec (World T J X) (Option ImportJob)
  claim ctx = on_imports (w.client.imports.claim_next_pending ctx)

  -- `DrainOnce`, with fuel for the jobs and, in each, for the pages.
  unfoldable pub drain_once : ℕ → ℕ → Context X → World T J X → Drained × World T J X
  drain_once zero pages ctx world = (out_of_fuel, world)
  drain_once (suc fuel) pages ctx world = elim (ctx world.env) [
    | some text ↦ (cancelled, world)
    | none ↦
        let (r, world') = claim ctx world in
        elim r [
          | err e ↦ (claim_failed, world')
          | ok none ↦ (empty, world')
          | ok (some job) ↦
              let (p, world'') = process_job pages ctx job world' in
              elim p [
                | ok unfinished ↦ (out_of_fuel, world'')
                | ok succeeded ↦ drain_once fuel pages ctx world''
                | err e ↦ drain_once fuel pages ctx world''
              ]
        ]
  ]

  -- One turn of `Run`, in which the ticker fired.
  abbrev pub run_tick : ℕ → ℕ → Context X → World T J X → World T J X
  run_tick fuel pages ctx world = (drain_once fuel pages ctx world).1
