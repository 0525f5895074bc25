-- ===== src/Postgres/Imports/Progress.antt =====
-- The queue as the worker sees it: the five updates of a job against Stores/Progress.
use google_photos_picker.Base.{
  String, ◌≡◌, ◌≢◌, refl, ap, ◌∙◌, ◌⊎◌, Option, none, some, lookup, insert, lookup-insert,
  Option-cases, inl, inr, eq_iff, eq_refl, ◌==◌, if◌then◌else◌, arith,
}
use google_photos_picker.Errors.{Error}
use google_photos_picker.Exec.{Result, ok, err, Exec, Context, Result-cases}
use google_photos_picker.Stores.{ImportJob}
use google_photos_picker.Stores.Progress.{
  Updates, ProgressContract, AppliesWholly, IsAllOrNothing, Accepts, counted_total, counted_success,
  counted_failure, completed, given_up,
}
use google_photos_picker.Postgres.Database.{
  Database, Answers, Ran, Ran-ok, Ran-answered, statement, statement-Ran,
}
use google_photos_picker.Postgres.Imports.{
  ImportRow, ImportTable, update_job, total_row, success_row, failure_row, complete_row, failed_row,
  set_total, record_item_success, record_item_failure, mark_complete, mark_failed, pg_import_store,
}
use google_photos_picker.Postgres.Imports.Reading.{IsUp, whole_job}

unfoldable pub view : ImportTable → String → Option ImportJob
view j id = elim (lookup id j) [ none ↦ none | some row ↦ some (whole_job id row) ]

view-insert :
    (id k : String) (row : ImportRow) (j : ImportTable)
    → view (insert id row j) k ≡ (if id == k then some (whole_job k row) else view j k)
unfolding view
view-insert id k row j = ground (arith, lookup-insert id k row j)

view-some :
    (id : String) (row : ImportRow) (j : ImportTable)
    → lookup id j ≡ some row
    → view j id ≡ some (whole_job id row)
unfolding view
view-some id row j h = ground arith

module _ {X : Type 0} (db : Database X) (ctx : Context X) (id : String)
    (change : X → ImportRow → Result ImportRow) (f : ImportJob → ImportJob)
    (tracks : (y : X) (row new : ImportRow)
      → change y row ≡ ok new
      → whole_job id new ≡ f (whole_job id row)) where
  abbrev op : Exec (ImportTable × X) (Unit {0})
  op = statement db ctx (λ y. update_job id (change y))

  -- What one update leaves behind.
  pub record IsUpdated (j : ImportTable) (r : Result (Unit {0})) (j' : ImportTable) : Type 0 where
    pub changed : (job : ImportJob) → r ≡ ok tt → view j id ≡ some job → view j' id ≡ some (f job)
    pub kept : (e : Error) → r ≡ err e → j' ≡ j
    pub others : (other : String) → id ≢ other → view j' other ≡ view j other

  pub update_job-IsUpdated :
      (y : X) (j : ImportTable)
      → IsUpdated j (update_job id (change y) j).0 (update_job id (change y) j).1
  unfolding update_job
  update_job-IsUpdated y j = elim (Option-cases (lookup id j)) [
    | inl missing ↦ record {
      changed = λ job good had. unfold view in ground arith;
      kept = λ e bad. ground arith;
      others = λ o ne. ground arith;
    }
    | inr (row, found) ↦ elim (Result-cases (change y row)) [
      | inr (e, refused) ↦ record {
        changed = λ job good had. ground arith;
        kept = λ e bad. ground arith;
        others = λ o ne. ground arith;
      }
      | inl (new, made) ↦ record {
        changed = λ job good had. ground (
          arith,
          view-insert id id new j,
          eq_refl id,
          tracks y row new made,
          view-some id row j found,
        );
        kept = λ e bad. ground arith;
        others = λ o ne. ground (arith, view-insert id o new j, eq_iff id o);
      }
    ]
  ]

  op-IsUpdated : (j : ImportTable) (x : X) → Ran db (IsUpdated j) (op (j, x)).0 (op (j, x)).1.0
  op-IsUpdated j x =
      statement-Ran (IsUpdated j) db ctx (λ y. update_job id (change y)) j x
        (λ text. record {
          changed = λ job good had. cc;
          kept = λ e bad. refl;
          others = λ o ne. refl;
        })
        (λ y. update_job-IsUpdated y j)

  statement-Updates : Answers db → Updates view op id f
  statement-Updates answers = record {
    changed = λ j x job good had. (Ran-ok good (op-IsUpdated j x)).changed job good had;
    kept = λ j x e bad. (Ran-answered answers (op-IsUpdated j x)).kept e bad;
    others = λ j x o ne. (op-IsUpdated j x).holds.others o ne;
  }

  statement-AppliesWholly : AppliesWholly view op id f
  statement-AppliesWholly = record {
    either = λ j x job had.
        split j (op (j, x)).1.0 job had (op-IsUpdated j x).told (op-IsUpdated j x).holds;
    done = λ j x job good had. (Ran-ok good (op-IsUpdated j x)).changed job good had;
    apart = λ j x o ne. (op-IsUpdated j x).holds.others o ne;
  }
    where
      split :
          (j j' : ImportTable) (job : ImportJob)
          → view j id ≡ some job
          → (r : Result (Unit {0})) → IsUpdated j r j'
          → (view j' id ≡ some job) ⊎ (view j' id ≡ some (f job))
      split j j' job had (ok tt) u = inr (u.changed job refl had)
      split j j' job had (err e) u = inl (ap (λ t. view t id) (u.kept e refl) ∙ had)

module _ {X : Type 0} (db : Database X) where
  -- Whatever the database does, the loss of an answer included, and however one of the five updates of the
  -- queue ends, the job is as it was or wholly changed as the worker relies on; it is changed where the update
  -- succeeds; and no other job is touched.
  pub pg_import_store-IsAllOrNothing : IsAllOrNothing view (pg_import_store db)
  unfolding set_total record_item_success record_item_failure mark_complete mark_failed
  pg_import_store-IsAllOrNothing = record {
    total = λ ctx id n.
        statement-AppliesWholly db ctx id (λ y. total_row (db.now y) n) (counted_total n)
          (λ y row new e. ground arith);
    success = λ ctx id saved_id.
        statement-AppliesWholly db ctx id (λ y. success_row (db.now y) saved_id)
          (counted_success saved_id) (λ y row new e. ground arith);
    failure = λ ctx id.
        statement-AppliesWholly db ctx id (λ y. failure_row (db.now y)) counted_failure
          (λ y row new e. ground arith);
    finish = λ ctx id.
        statement-AppliesWholly db ctx id (λ y. complete_row (db.now y)) completed
          (λ y row new e. ground arith);
    give_up = λ ctx id message.
        statement-AppliesWholly db ctx id (λ y. failed_row db.accepts_text (db.now y) message)
          (given_up message) (λ y row new e. ground arith);
  }

  -- Each of the five updates of the queue changes the one job as the worker relies on when it succeeds, and
  -- touches no other job; and over a connection that loses no answer of a statement that ran, it leaves the
  -- table as it was when it fails.
  pub pg_import_store-ProgressContract : Answers db → ProgressContract view (pg_import_store db)
  unfolding set_total record_item_success record_item_failure mark_complete mark_failed
  pg_import_store-ProgressContract answers = record {
    total = λ ctx id n.
        statement-Updates db ctx id (λ y. total_row (db.now y) n) (counted_total n)
          (λ y row new e. ground arith) answers;
    success = λ ctx id saved_id.
        statement-Updates db ctx id (λ y. success_row (db.now y) saved_id)
          (counted_success saved_id) (λ y row new e. ground arith) answers;
    failure = λ ctx id.
        statement-Updates db ctx id (λ y. failure_row (db.now y)) counted_failure
          (λ y row new e. ground arith) answers;
    finish = λ ctx id.
        statement-Updates db ctx id (λ y. complete_row (db.now y)) completed
          (λ y row new e. ground arith) answers;
    give_up = λ ctx id message.
        statement-Updates db ctx id (λ y. failed_row db.accepts_text (db.now y) message)
          (given_up message) (λ y row new e. ground arith) answers;
  }

  module _ (ctx : Context X) (up : IsUp db ctx) where
    update_job_up :
        (id : String) (change : X → ImportRow → Result ImportRow) (j : ImportTable) (x : X)
        → ((y : X) → (update_job id (change y) j).0 ≡ ok tt)
        → (statement db ctx (λ y. update_job id (change y)) (j, x)).0 ≡ ok tt
    unfolding statement
    update_job_up id change j x good =
        ground (arith, up x, up (db.round_trip x).1, good (db.round_trip x).1)

    -- While the database answers every statement under the context, no setting of a total, no count of an
    -- item and no completion of a job fails, as long as the counters fit an INT column.
    pub pg_import_store-Accepts : Accepts view (pg_import_store db) ctx 2147483647
    unfolding set_total record_item_success record_item_failure mark_complete update_job view
    pg_import_store-Accepts = record {
      total =
          λ id n j x fits. update_job_up id (λ y. total_row (db.now y) n) j x (λ y. ground arith);
      success = λ id saved_id j x job had fits.
          update_job_up id (λ y. success_row (db.now y) saved_id) j x (λ y. ground arith);
      failure = λ id j x job had fits.
          update_job_up id (λ y. failure_row (db.now y)) j x (λ y. ground arith);
      finish = λ id j x. update_job_up id (λ y. complete_row (db.now y)) j x (λ y. ground arith);
    }
