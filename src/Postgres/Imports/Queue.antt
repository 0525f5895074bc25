-- ===== src/Postgres/Imports/Queue.antt =====
-- How many jobs wait in the table, for the worker's drain.
use google_photos_picker.Base.{
  ℕ, ◌+◌, ◌≤◌, ◌<◌, String, ◌≡◌, Bool, some, [], ◌∷◌, lookup, insert, inl, inr, arith,
}
use google_photos_picker.Exec.{Result, ok, Context}
use google_photos_picker.Stores.{ImportJob}
use google_photos_picker.Postgres.Database.{Database, statement, statement_rule}
use google_photos_picker.Postgres.Imports.{
  ImportRow, ImportTable, update_job, claim_row, claim_next_pending, start_row, total_row,
  success_row, failure_row, complete_row, failed_row, set_total, record_item_success,
  record_item_failure, mark_complete, mark_failed, pg_import_store,
}
use google_photos_picker.Postgres.Imports.Rows.{after, total, success, failure, finish, fail, claim}
use google_photos_picker.Postgres.Imports.Lifecycle.{
  IsConsistent, update_job-cases, claim_row-cases, after-IsConsistent,
}
use google_photos_picker.Postgres.Imports.SingleClaim.{waiting}
use google_photos_picker.Worker.Draining.{NeverRequeues}

unfoldable pub waiting_jobs : ImportTable → ℕ
waiting_jobs [] = 0
waiting_jobs ((_, row) ∷ j) = waiting (some row) + waiting_jobs j

waiting_jobs-insert :
    (id : String) (row : ImportRow) (j : ImportTable)
    → waiting_jobs (insert id row j) + waiting (lookup id j) ≡ waiting_jobs j + waiting (some row)
unfolding waiting_jobs insert lookup
waiting_jobs-insert id row [] = omega arith
waiting_jobs-insert id row ((k, old) ∷ j) = ground (arith, waiting_jobs-insert id row j)

-- A consistent table in which no more than n jobs wait.
abbrev pub IsWithin : ℕ → ImportTable → Type 0
IsWithin n j = IsConsistent j × (waiting_jobs j ≤ n)

update_job-waiting :
    (id : String) (change : ImportRow → Result ImportRow) (j : ImportTable)
    → ((row new : ImportRow) → change row ≡ ok new → waiting (some new) ≤ waiting (some row))
    → waiting_jobs (update_job id change j).1 ≤ waiting_jobs j
update_job-waiting id change j keeps = elim (update_job-cases id change j) [
  | inl same ↦ rw same (omega arith)
  | inr w ↦
      rw w.table_eq
        (ground (arith, waiting_jobs-insert id w.new j, w.present, keeps w.row w.new w.changed))
]

claim_row-waiting :
    (locked : String → Bool) (now : ℕ) (j : ImportTable) (job : ImportJob)
    → IsConsistent j
    → (claim_row locked now j).0 ≡ ok (some job)
    → waiting_jobs (claim_row locked now j).1 < waiting_jobs j
claim_row-waiting locked now j job h found = elim (claim_row-cases locked now j h.unique) [
  | inl (r, same) ↦ cc (found, r)
  | inr (job', r, c) ↦ rw c.table_eq (
      ground (
        arith,
        waiting_jobs-insert job'.id (start_row now c.row) j,
        c.was_oldest.present,
        c.was_oldest.free,
      ))
]

module _ {X : Type 0} (db : Database X) where
  statement-IsWithin :
      (ctx : Context X) (id : String) (change : X → ImportRow → Result ImportRow) (n : ℕ)
      (j : ImportTable) (x : X)
      → ((y : X) → IsConsistent j → IsConsistent (update_job id (change y) j).1)
      → ((y : X) (row new : ImportRow)
          → change y row ≡ ok new
          → waiting (some new) ≤ waiting (some row))
      → IsWithin n j
      → IsWithin n (statement db ctx (λ y. update_job id (change y)) (j, x)).1.0
  statement-IsWithin ctx id change n j x consistent keeps (c, few) =
      statement_rule (λ r. IsWithin n) db ctx (λ y. update_job id (change y)) j x (λ t. (c, few))
        ran (λ t y e. ran y)
    where
      ran : (y : X) → IsWithin n (update_job id (change y) j).1
      ran y = (consistent y c, omega (arith, few, update_job-waiting id (change y) j (keeps y)))

  -- Over a consistent table, no update of the worker puts a job back among those that wait, and a claim
  -- that returns a job leaves one less of them.
  pub pg_import_store-NeverRequeues : NeverRequeues IsWithin (pg_import_store db)
  unfolding set_total record_item_success record_item_failure mark_complete mark_failed
      claim_next_pending after
  pg_import_store-NeverRequeues = record {
    total = λ ctx id items n j x.
        statement-IsWithin ctx id (λ y. total_row (db.now y) items) n j x
          (λ y c. after-IsConsistent (db.now y) j c (total id items)) (λ y row new e. ground arith);
    success = λ ctx id saved_id n j x.
        statement-IsWithin ctx id (λ y. success_row (db.now y) saved_id) n j x
          (λ y c. after-IsConsistent (db.now y) j c (success id saved_id))
          (λ y row new e. ground arith);
    failure = λ ctx id n j x.
        statement-IsWithin ctx id (λ y. failure_row (db.now y)) n j x
          (λ y c. after-IsConsistent (db.now y) j c (failure id)) (λ y row new e. ground arith);
    finish = λ ctx id n j x.
        statement-IsWithin ctx id (λ y. complete_row (db.now y)) n j x
          (λ y c. after-IsConsistent (db.now y) j c (finish id)) (λ y row new e. ground arith);
    give_up = λ ctx id message n j x.
        statement-IsWithin ctx id (λ y. failed_row db.accepts_text (db.now y) message) n j x
          (λ y c. after-IsConsistent (db.now y) j c (fail db.accepts_text id message))
          (λ y row new e. ground arith);
    claim = λ ctx job n j x within found.
        statement_rule (λ r t. r ≡ ok (some job) → (fewer : ℕ) × (fewer < n) × IsWithin fewer t) db
          ctx (λ y. claim_row (db.locked y) (db.now y)) j x (λ t e. absurd (ground arith))
          (λ y e. (
            waiting_jobs (claim_row (db.locked y) (db.now y) j).1,
            omega (arith, within.1, claim_row-waiting (db.locked y) (db.now y) j job within.0 e),
            (after-IsConsistent (db.now y) j within.0 (claim (db.locked y)), omega arith),
          ))
          (λ t y l e. absurd (ground arith)) found;
  }
