-- ===== src/Postgres/Imports/Effects.antt =====
-- What the operations of postgres/imports.go keep, from what their statements keep.
use google_photos_picker.Base.{ℕ, String}
use google_photos_picker.Stores.{Metadata}
use google_photos_picker.Stores.Keeping.{ImportsKeep, JobKeeps, QueueKeeps}
use google_photos_picker.Postgres.Database.{Database}
use google_photos_picker.Postgres.Imports.{ImportTable, pg_import_store}
use google_photos_picker.Postgres.Imports.Rows.{
  Kept, Stmt, insert, claim, total, success, failure, finish, fail, remove, create_job-Keeps,
  claim_next_pending-Keeps, set_total-Keeps, record_item_success-Keeps, record_item_failure-Keeps,
  mark_complete-Keeps, mark_failed-Keeps, get-Keeps,
}

module _ (Q : ImportTable → Type 0) {X : Type 0} (db : Database X) where
  pub pg_import_store-ImportsKeep :
      (user_id : String)
      → ((id session_id : String) (meta : Metadata) → Kept Q (insert id user_id session_id meta))
      → ((id : String) → Kept Q (remove user_id id))
      → ImportsKeep Q (pg_import_store db) user_id
  pg_import_store-ImportsKeep user_id inserts removes = record {
    creates = λ ctx session_id meta.
        create_job-Keeps Q db ctx user_id session_id meta (λ id. inserts id session_id meta);
    gets = λ ctx id. get-Keeps Q db ctx user_id id (removes id);
  }

  pub pg_import_store-JobKeeps :
      (id : String)
      → ((n : ℕ) → Kept Q (total id n))
      → ((saved_id : String) → Kept Q (success id saved_id))
      → Kept Q (failure id)
      → Kept Q (finish id)
      → ((message : String) → Kept Q (fail db.accepts_text id message))
      → JobKeeps Q (pg_import_store db) id
  pg_import_store-JobKeeps id totals successes failures finishes fails = record {
    totals = λ ctx n. set_total-Keeps Q db ctx id n (totals n);
    successes = λ ctx saved_id. record_item_success-Keeps Q db ctx id saved_id (successes saved_id);
    failures = λ ctx. record_item_failure-Keeps Q db ctx id failures;
    finishes = λ ctx. mark_complete-Keeps Q db ctx id finishes;
    give_ups = λ ctx message. mark_failed-Keeps Q db ctx id message (fails message);
  }

  module _ (keep : (s : Stmt) → Kept Q s) where
    -- What every statement keeps, everything keeps.
    pub pg_import_store-QueueKeeps : QueueKeeps Q (pg_import_store db)
    pg_import_store-QueueKeeps = record {
      claims = λ ctx. claim_next_pending-Keeps Q db ctx (λ locked. keep (claim locked));
      jobs = λ id.
          pg_import_store-JobKeeps id (λ n. keep (total id n))
            (λ saved_id. keep (success id saved_id)) (keep (failure id)) (keep (finish id))
            (λ message. keep (fail db.accepts_text id message));
    }

    pub all-ImportsKeep : (user_id : String) → ImportsKeep Q (pg_import_store db) user_id
    all-ImportsKeep user_id =
        pg_import_store-ImportsKeep user_id
          (λ id session_id meta. keep (insert id user_id session_id meta))
          (λ id. keep (remove user_id id))
