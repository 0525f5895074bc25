-- ===== src/Worker/GivingUp.antt =====
-- A job whose items could not be listed, over the queue in PostgreSQL.
use google_photos_picker.Base.{
  ℕ, Bool, true, false, String, ◌≡◌, refl, ap, ◌∙◌, Option, none, some, List, Option-cases, inl,
  inr, arith,
}
use google_photos_picker.Errors.{Error, wrap, text}
use google_photos_picker.Exec.{Result, err, Exec, Context}
use google_photos_picker.System.{System}
use google_photos_picker.OAuth.{Oauth2}
use google_photos_picker.Stores.{ImportJob, ImportStore}
use google_photos_picker.Stores.Progress.{given_up}
use google_photos_picker.Postgres.Database.{Database, statement, unreachable}
use google_photos_picker.Postgres.Imports.{
  ImportTable, pg_import_store, mark_failed, update_job, failed_row,
}
use google_photos_picker.Postgres.Imports.Progress.{view, update_job-IsUpdated}
use google_photos_picker.Picker.{MediaItem, Readers, list_session_media_items}
use google_photos_picker.Client.{World, on_tokens}
use google_photos_picker.Worker.{Worker, authorize, process_job, finish_job, job_context}

-- What `MarkFailed` makes of a job: the job is failed, unless the statement does not reach the server, or
-- the server does not take the message.
abbrev pub failed_or_same : Option String → Bool → String → ImportJob → ImportJob
failed_or_same (some _) accepted message job = job
failed_or_same none false message job = job
failed_or_same none true message job = given_up message job

module _ {X : Type 0} (db : Database X) where
  unreached_same :
      (ctx : Context X) (id message t : String) (j : ImportTable) (x : X)
      → unreachable db ctx x ≡ some t
      → (mark_failed db ctx id message (j, x)).1.0 ≡ j
  unfolding unreachable mark_failed statement
  unreached_same ctx id message t j x h = ground arith

  abbrev failing : String → String → X → Exec ImportTable (Unit {0})
  failing id message y = update_job id (failed_row db.accepts_text (db.now y) message)

  reached_ran :
      (ctx : Context X) (id message : String) (j : ImportTable) (x : X)
      → unreachable db ctx x ≡ none
      → (mark_failed db ctx id message (j, x)).1.0 ≡ (failing id message (db.round_trip x).1 j).1
  unfolding unreachable mark_failed statement
  reached_ran ctx id message j x h = ground arith

  failing-view :
      (id message : String) (y : X) (j : ImportTable) (before : ImportJob) (accepted : Bool)
      → db.accepts_text message ≡ accepted
      → view j id ≡ some before
      → view (failing id message y j).1 id ≡ some (failed_or_same none accepted message before)
  unfolding update_job
  failing-view id message y j before true taken had =
      (update_job-IsUpdated db background_of id (λ z. failed_row db.accepts_text (db.now z) message)
          (given_up message) (λ z row new e. ground arith) y j).changed
        before (ground (arith, taken)) had
    where
      background_of : Context X
      background_of x = none
  failing-view id message y j before false taken had =
      let same : (failing id message y j).1 ≡ j = ground (arith, taken) in rw same had

  mark_failed-view :
      (ctx : Context X) (id message : String) (j : ImportTable) (x : X) (before : ImportJob)
      → view j id ≡ some before
      → view (mark_failed db ctx id message (j, x)).1.0 id
        ≡ some (failed_or_same (unreachable db ctx x) (db.accepts_text message) message before)
  mark_failed-view ctx id message j x before had = elim (Option-cases (unreachable db ctx x)) [
    | inr (t, h) ↦ rw (h, unreached_same ctx id message t j x h) had
    | inl h ↦
        rw (h, reached_ran ctx id message j x h)
          (failing-view id message (db.round_trip x).1 j before (db.accepts_text message) refl had)
  ]

  module _ {T : Type 0} (sys : System X) (lib : Oauth2 X) (readers : Readers)
      (w : Worker T ImportTable X) (pg : w.client.imports ≡ pg_import_store db) (fuel : ℕ)
      (ctx : Context X) (job : ImportJob) (world : World T ImportTable X) where
    abbrev pub listed : Result (Option (List MediaItem)) × World T ImportTable X
    listed =
        on_tokens
          (list_session_media_items readers w.client.http_client (authorize sys lib readers w) fuel
            (job_context sys lib readers w ctx world) job.user_id job.session_id)
          world

    -- Where the items of a job cannot be listed, the call returns that error, wrapped; and the job is marked
    -- failed with its text if and only if one more statement reaches the server under the job's own context, and
    -- the server takes the text.
    -- So after a listing that ran into the job's timeout, the job stays as it was: running.
    pub process_job-list_failed :
        (e : Error) (before : ImportJob)
        → listed.0 ≡ err e
        → view world.imports job.id ≡ some before
        → ((process_job sys lib readers w fuel ctx job world).0 ≡ err (wrap "list media items" e))
          × (view (process_job sys lib readers w fuel ctx job world).1.imports job.id
              ≡ some (
                  failed_or_same
                    (unreachable db (job_context sys lib readers w ctx world) listed.1.env)
                    (db.accepts_text (text e))
                    (text e)
                    before))
    unfolding process_job finish_job
    process_job-list_failed e before bad had =
        let limited = job_context sys lib readers w ctx world in
        let after : ImportTable × X = (world.imports, listed.1.env) in
        rw bad (
          refl,
          ap
                (λ (store : ImportStore ImportTable X).
                  view (store.mark_failed limited job.id (text e) after).1.0 job.id)
                pg
              ∙ mark_failed-view limited job.id (text e) world.imports listed.1.env before had,
        )
