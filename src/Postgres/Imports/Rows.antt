-- ===== src/Postgres/Imports/Rows.antt =====
-- The statements on the table, as steps that any number of workers and handlers interleave; each
-- operation of the store runs one of them, or two (`Get`), or none when the database fails it.
use google_photos_picker.Base.{ℕ, String, ◌≡◌, refl, Bool, true, false, arith, subst, sym}
use google_photos_picker.Exec.{Result, ok, err, Context, continue}
use google_photos_picker.Stores.{Metadata, ImportJob}
use google_photos_picker.Exec.Invariants.{Keeps, OnStore}
use google_photos_picker.Postgres.Database.{Database, statement, statement-Keeps}
use google_photos_picker.Postgres.Imports.{
  ImportTable, insert_job, claim_row, update_job, total_row, success_row, failure_row, complete_row,
  failed_row, select_job, delete_job, is_terminal, create_job, claim_next_pending, set_total,
  record_item_success, record_item_failure, mark_complete, mark_failed, get, found_job, after_read,
}

pub data Stmt : Type 0 where
  insert : String → String → String → Metadata → Stmt
  claim : (String → Bool) → Stmt  -- with the rows that others hold locked
  total : String → ℕ → Stmt
  success : String → String → Stmt
  failure : String → Stmt
  finish : String → Stmt
  fail : (String → Bool) → String → String → Stmt  -- with the texts that the server takes
  remove : String → String → Stmt

-- The table after a statement at an instant.
unfoldable pub after : ℕ → Stmt → ImportTable → ImportTable
after now (insert id user_id session_id meta) j = (insert_job id user_id session_id meta now j).1
after now (claim locked) j = (claim_row locked now j).1
after now (total id n) j = (update_job id (total_row now n) j).1
after now (success id saved_id) j = (update_job id (success_row now saved_id) j).1
after now (failure id) j = (update_job id (failure_row now) j).1
after now (finish id) j = (update_job id (complete_row now) j).1
after now (fail accepts id message) j = (update_job id (failed_row accepts now message) j).1
after now (remove user_id id) j = (delete_job user_id id j).1

select_job_state : (user_id id : String) (j : ImportTable) → (select_job user_id id j).1 ≡ j
unfolding select_job
select_job_state user_id id j = ground arith

-- The statement keeps P at any instant.
abbrev pub Kept {ℓ} : (ImportTable → Type ℓ) → Stmt → Type ℓ
Kept P s = (now : ℕ) (j : ImportTable) → P j → P (after now s j)

module _ {ℓ} (P : ImportTable → Type ℓ) {X : Type 0} (db : Database X) (ctx : Context X) where
  -- Each operation keeps what its statements keep.
  pub create_job-Keeps :
      (user_id session_id : String) (meta : Metadata)
      → ((id : String) → Kept P (insert id user_id session_id meta))
      → Keeps (OnStore P) (create_job db ctx user_id session_id meta)
  unfolding create_job after
  create_job-Keeps user_id session_id meta keep = record {
    at = λ w p.
        let id = (db.new_uuid w.1).0 in
        (statement-Keeps P db ctx (λ y. insert_job id user_id session_id meta (db.now y))
            (λ y j q. keep id (db.now y) j q)).at
          (w.0, (db.new_uuid w.1).1) p;
  }

  pub claim_next_pending-Keeps :
      ((locked : String → Bool) → Kept P (claim locked))
      → Keeps (OnStore P) (claim_next_pending db ctx)
  unfolding claim_next_pending after
  claim_next_pending-Keeps keep =
      statement-Keeps P db ctx _ (λ y j p. keep (db.locked y) (db.now y) j p)

  pub set_total-Keeps :
      (id : String) (n : ℕ) → Kept P (total id n) → Keeps (OnStore P) (set_total db ctx id n)
  unfolding set_total after
  set_total-Keeps id n keep = statement-Keeps P db ctx _ (λ y j p. keep (db.now y) j p)

  pub record_item_success-Keeps :
      (id saved_id : String)
      → Kept P (success id saved_id)
      → Keeps (OnStore P) (record_item_success db ctx id saved_id)
  unfolding record_item_success after
  record_item_success-Keeps id saved_id keep =
      statement-Keeps P db ctx _ (λ y j p. keep (db.now y) j p)

  pub record_item_failure-Keeps :
      (id : String) → Kept P (failure id) → Keeps (OnStore P) (record_item_failure db ctx id)
  unfolding record_item_failure after
  record_item_failure-Keeps id keep = statement-Keeps P db ctx _ (λ y j p. keep (db.now y) j p)

  pub mark_complete-Keeps :
      (id : String) → Kept P (finish id) → Keeps (OnStore P) (mark_complete db ctx id)
  unfolding mark_complete after
  mark_complete-Keeps id keep = statement-Keeps P db ctx _ (λ y j p. keep (db.now y) j p)

  pub mark_failed-Keeps :
      (id message : String)
      → Kept P (fail db.accepts_text id message)
      → Keeps (OnStore P) (mark_failed db ctx id message)
  unfolding mark_failed after
  mark_failed-Keeps id message keep = statement-Keeps P db ctx _ (λ y j p. keep (db.now y) j p)

  module _ (user_id id : String) (keep : Kept P (remove user_id id)) where
    after_read-keeps :
        (job : ImportJob) (w : ImportTable × X) (terminal : Bool)
        → is_terminal job.status ≡ terminal
        → P w.0
        → P (after_read db ctx user_id id job w).1.0
    unfolding after
    after_read-keeps job w true e p =
        rw e ((statement-Keeps P db ctx (λ y. delete_job user_id id) (λ y j q. keep 0 j q)).at w p)
    after_read-keeps job w false e p = rw e p

    -- `Get` reads, and then deletes what it read in a terminal state.
    pub get-Keeps : Keeps (OnStore P) (get db ctx user_id id)
    unfolding get
    get-Keeps = record { at = λ w p. go (found_job (found w).0) (found w).1 (read w p) }
      where
        found : ImportTable × X → Result ImportJob × (ImportTable × X)
        found w = statement db ctx (λ y. select_job user_id id) w

        read : (w : ImportTable × X) → P w.0 → P (found w).1.0
        read w =
            (statement-Keeps P db ctx (λ y. select_job user_id id)
                (λ y j q. subst P (sym (select_job_state user_id id j)) q)).at
              w

        go :
            (r : Result ImportJob) (w : ImportTable × X)
            → P w.0
            → P (continue r (after_read db ctx user_id id) w).1.0
        go (ok job) w p = after_read-keeps job w (is_terminal job.status) refl p
        go (err e) w p = p
