-- ===== src/Postgres/Imports/Keeping.antt =====
-- Each operation of the queue, whole, against the invariant of its table.
use google_photos_picker.Base.{ℕ, String}
use google_photos_picker.Exec.{Exec, Context}
use google_photos_picker.Exec.Invariants.{Keeps, OnStore}
use google_photos_picker.Stores.{Metadata}
use google_photos_picker.Postgres.Database.{Database}
use google_photos_picker.Postgres.Imports.{
  ImportTable, create_job, claim_next_pending, set_total, record_item_success, record_item_failure,
  mark_complete, mark_failed, get,
}
use google_photos_picker.Postgres.Imports.Lifecycle.{IsConsistent, after-IsConsistent}
use google_photos_picker.Postgres.Imports.Rows.{
  Stmt, insert, claim, total, success, failure, finish, fail, remove, create_job-Keeps,
  claim_next_pending-Keeps, set_total-Keeps, record_item_success-Keeps, record_item_failure-Keeps,
  mark_complete-Keeps, mark_failed-Keeps, get-Keeps,
}

module _ {X : Type 0} (db : Database X) where
  abbrev pub KeepsTable : {A : Type 0} → (m : Exec (ImportTable × X) A) → Type 0
  KeepsTable m = Keeps (OnStore IsConsistent) m

  -- All eight operations, under this context.
  pub record KeepsConsistent (ctx : Context X) : Type 0 where
    pub creates :
        (user_id session_id : String) (meta : Metadata)
        → KeepsTable (create_job db ctx user_id session_id meta)
    pub claims : KeepsTable (claim_next_pending db ctx)
    pub totals : (id : String) (n : ℕ) → KeepsTable (set_total db ctx id n)
    pub successes : (id saved_id : String) → KeepsTable (record_item_success db ctx id saved_id)
    pub failures : (id : String) → KeepsTable (record_item_failure db ctx id)
    pub completes : (id : String) → KeepsTable (mark_complete db ctx id)
    pub fails : (id message : String) → KeepsTable (mark_failed db ctx id message)
    pub gets : (user_id id : String) → KeepsTable (get db ctx user_id id)

  -- Every operation of the queue keeps its table consistent, whatever its arguments and its context and
  -- however it ends: one row for an id, one saved id for each completed item, counters that fit their
  -- INT columns, and a message on each failed job.
  pub pg_import_store-KeepsConsistent : (ctx : Context X) → KeepsConsistent ctx
  pg_import_store-KeepsConsistent ctx =
      let keep = λ (s : Stmt) (now : ℕ) (j : ImportTable) (h : IsConsistent j).
        after-IsConsistent now j h s in
      record {
        creates = λ user session meta.
            create_job-Keeps IsConsistent db ctx user session meta
              (λ id. keep (insert id user session meta));
        claims = claim_next_pending-Keeps IsConsistent db ctx (λ locked. keep (claim locked));
        totals = λ id n. set_total-Keeps IsConsistent db ctx id n (keep (total id n));
        successes = λ id saved.
            record_item_success-Keeps IsConsistent db ctx id saved (keep (success id saved));
        failures = λ id. record_item_failure-Keeps IsConsistent db ctx id (keep (failure id));
        completes = λ id. mark_complete-Keeps IsConsistent db ctx id (keep (finish id));
        fails = λ id text.
            mark_failed-Keeps IsConsistent db ctx id text (keep (fail db.accepts_text id text));
        gets = λ user id. get-Keeps IsConsistent db ctx user id (keep (remove user id));
      }
