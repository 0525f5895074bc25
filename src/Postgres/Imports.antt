-- ===== src/Postgres/Imports.antt =====
-- postgres/imports.go: the queue of import jobs over the table photopicker_imports. The primary key
-- is the job's id, so the table is a map from ids to the other columns. JSONB columns hold what
-- `json.Marshal` wrote of a list or a map of texts, and give the same back; a nil map is
-- written as {} and so comes back empty, not nil. Texts with NUL bytes, which PostgreSQL refuses,
-- are not modelled.
mod Table
pub mod Rows
pub mod Effects
pub mod Claim
pub mod Lifecycle
pub mod SingleClaim
pub mod Reading
pub mod Progress
pub mod Keeping
pub mod Queue
pub mod Emptying
mod Tests
unfoldable pub use Table.*
use google_photos_picker.Base.{
  ℕ, ◌+◌, String, Bool, true, false, not, ◌&&◌, Option, none, some, List, [], ◌∷◌, ◌++◌, StringMap,
  lookup, insert, erase, ◌==◌, ltb, leb, if◌then◌else◌,
}
use google_photos_picker.Errors.{Error, sentinel, job_not_found, is, sql_no_rows}
use google_photos_picker.Exec.{outside, Result, ok, err, Exec, Context, attempt, pure, ◌>>=◌}
use google_photos_picker.Stores.{
  ImportStatus, pending, running, complete, failed, Metadata, ImportJob, ImportStore,
}
use google_photos_picker.Postgres.Database.{
  Database, statement, fits_varchar, value_too_long, unique_violation, out_of_range, fits_int,
}

module _ {X : Type 0} (db : Database X) where
  -- `CreateJob`
  unfoldable pub create_job : Context X → String → String → Metadata → Exec (ImportTable × X) String
  unfolding statement insert_job
  create_job ctx user_id session_id meta (j, x) =
      let (id, x') = db.new_uuid x in
      statement db ctx (λ y. insert_job id user_id session_id meta (db.now y)) (j, x')

  -- `ClaimNextPending`
  unfoldable pub claim_next_pending : Context X → Exec (ImportTable × X) (Option ImportJob)
  unfolding statement claim_row
  claim_next_pending ctx = statement db ctx (λ y. claim_row (db.locked y) (db.now y))

  -- The five updates of a job by its id.
  unfoldable pub set_total : Context X → String → ℕ → Exec (ImportTable × X) (Unit {0})
  unfolding statement update_job
  set_total ctx id total = statement db ctx (λ y. update_job id (total_row (db.now y) total))

  unfoldable pub record_item_success :
      Context X → String → String → Exec (ImportTable × X) (Unit {0})
  unfolding statement update_job
  record_item_success ctx id saved_id =
      statement db ctx (λ y. update_job id (success_row (db.now y) saved_id))

  unfoldable pub record_item_failure : Context X → String → Exec (ImportTable × X) (Unit {0})
  unfolding statement update_job
  record_item_failure ctx id = statement db ctx (λ y. update_job id (failure_row (db.now y)))

  unfoldable pub mark_complete : Context X → String → Exec (ImportTable × X) (Unit {0})
  unfolding statement update_job
  mark_complete ctx id = statement db ctx (λ y. update_job id (complete_row (db.now y)))

  unfoldable pub mark_failed : Context X → String → String → Exec (ImportTable × X) (Unit {0})
  unfolding statement update_job
  mark_failed ctx id message =
      statement db ctx (λ y. update_job id (failed_row db.accepts_text (db.now y) message))

  -- The deletion of a job that was read in a terminal state; its error is dropped.
  abbrev after_read : Context X → String → String → ImportJob → Exec (ImportTable × X) ImportJob
  after_read ctx user_id id job w =
      if is_terminal job.status
      then (ok job, (attempt (statement db ctx (λ y. delete_job user_id id)) w).1)
      else (ok job, w)

  abbrev select_found : Context X → String → String → Exec (ImportTable × X) ImportJob
  select_found ctx user_id id w =
      let (r, w') = statement db ctx (λ y. select_job user_id id) w in (found_job r, w')

  -- `Get`
  unfoldable pub get : Context X → String → String → Exec (ImportTable × X) ImportJob
  unfolding statement select_job delete_job
  get ctx user_id id = do job ← select_found ctx user_id id; after_read ctx user_id id job

  -- The queue as the interface that the client takes.
  abbrev pub pg_import_store : ImportStore ImportTable X
  pg_import_store = record {
    create_job = create_job;
    claim_next_pending = claim_next_pending;
    set_total = set_total;
    record_item_success = record_item_success;
    record_item_failure = record_item_failure;
    mark_complete = mark_complete;
    mark_failed = mark_failed;
    get = get;
  }
