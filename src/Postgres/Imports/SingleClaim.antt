-- ===== src/Postgres/Imports/SingleClaim.antt =====
-- How often a job is handed out by `ClaimNextPending`, whatever workers and handlers do in between.
use google_photos_picker.Base.{
  ℕ, ◌+◌, ◌≤◌, String, ◌≡◌, Bool, Option, none, some, List, [], ◌∷◌, lookup, insert as insert_key,
  erase, lookup-insert, lookup-erase, inl, inr, ◌==◌, eq_iff, if◌then◌else◌, arith,
}
use google_photos_picker.Exec.{Result, ok, err}
use google_photos_picker.Stores.{ImportJob, Metadata}
use google_photos_picker.Postgres.Imports.{
  ImportRow, ImportTable, new_row, insert_job, start_row, claim_row, update_job, is_pending,
  total_row, success_row, failure_row, complete_row, failed_row,
}
use google_photos_picker.Postgres.Imports.Rows.{
  Stmt, insert, claim, total, success, failure, finish, fail, remove, after,
}
use google_photos_picker.Postgres.Imports.Lifecycle.{
  IsConsistent, update_job-cases, claim_row-cases, delete_job-cases, after-IsConsistent,
}

-- How often a result is the job, or the id, that is asked for: 0 or 1.
abbrev pub hands_out : String → Result (Option ImportJob) → ℕ
hands_out id (ok (some job)) = if job.id == id then 1 else 0
hands_out id _ = 0

abbrev pub makes : String → Result String → ℕ
makes id (ok new) = if new == id then 1 else 0
makes id (err _) = 0

-- The claims and the creations of a job by one statement.
abbrev pub claims_by : String → ℕ → Stmt → ImportTable → ℕ
claims_by id now (claim locked) j = hands_out id (claim_row locked now j).0
claims_by id now _ j = 0

abbrev pub creates_by : String → ℕ → Stmt → ImportTable → ℕ
creates_by id now (insert new user_id session_id meta) j =
    makes id (insert_job new user_id session_id meta now j).0
creates_by id now _ j = 0

-- Statements with the instants at which the server runs them, in its order.
abbrev pub History : Type 0
History = List (ℕ × Stmt)

unfoldable pub claims : String → History → ImportTable → ℕ
claims id [] j = 0
claims id ((now, s) ∷ h) j = claims_by id now s j + claims id h (after now s j)

unfoldable pub creates : String → History → ImportTable → ℕ
creates id [] j = 0
creates id ((now, s) ∷ h) j = creates_by id now s j + creates id h (after now s j)

-- 1 for a job that waits to be claimed.
abbrev pub waiting : Option ImportRow → ℕ
waiting none = 0
waiting (some row) = if is_pending row.status then 1 else 0

waiting-le : (o : Option ImportRow) → waiting o ≤ 1
waiting-le o = ground arith

module _ (id : String) (j : ImportTable) where
  waiting-insert :
      (k : String) (row : ImportRow)
      → waiting (lookup id (insert_key k row j))
        ≡ (if k == id then waiting (some row) else waiting (lookup id j))
  waiting-insert k row = ground (arith, lookup-insert k id row j)

  waiting-erase : (k : String) → waiting (lookup id (erase k j)) ≤ waiting (lookup id j)
  waiting-erase k = ground (arith, lookup-erase k id j)

  -- An update whose new row is pending only if the old one was.
  waiting-update :
      (k : String) (change : ImportRow → Result ImportRow)
      → ((row new : ImportRow) → change row ≡ ok new → waiting (some new) ≤ waiting (some row))
      → waiting (lookup id (update_job k change j).1) ≤ waiting (lookup id j)
  waiting-update k change keeps = elim (update_job-cases k change j) [
    | inl same ↦ rw same (omega arith)
    | inr w ↦ rw w.table_eq (
        ground (arith, waiting-insert k w.new, eq_iff k id, w.present, keeps w.row w.new w.changed))
  ]

  waiting-claim :
      (locked : String → Bool) (now : ℕ)
      → IsConsistent j
      → hands_out id (claim_row locked now j).0 + waiting (lookup id (claim_row locked now j).1)
        ≤ waiting (lookup id j)
  waiting-claim locked now h = elim (claim_row-cases locked now j h.unique) [
    | inl (r, same) ↦ rw (r, same) (omega arith)
    | inr (job, r, c) ↦
        rw (r, c.table_eq)
          (ground (
            arith,
            waiting-insert job.id (start_row now c.row),
            eq_iff job.id id,
            c.was_oldest.present,
            c.was_oldest.free,
          ))
  ]

  waiting-insert_job :
      (new user_id session_id : String) (meta : Metadata) (now : ℕ)
      → waiting (lookup id (insert_job new user_id session_id meta now j).1)
        ≤ makes id (insert_job new user_id session_id meta now j).0 + waiting (lookup id j)
  unfolding insert_job
  waiting-insert_job new user_id session_id meta now =
      ground (arith, waiting-insert new (new_row user_id session_id meta now))

  step_waiting :
      (now : ℕ) (s : Stmt)
      → IsConsistent j
      → claims_by id now s j + waiting (lookup id (after now s j))
        ≤ creates_by id now s j + waiting (lookup id j)
  unfolding after
  step_waiting now (insert new user_id session_id meta) h =
      omega (arith, waiting-insert_job new user_id session_id meta now)
  step_waiting now (claim locked) h = omega (arith, waiting-claim locked now h)
  step_waiting now (total k n) h =
      let change = total_row now n in
      omega (arith, waiting-update k change (λ row new e. ground arith))
  step_waiting now (success k saved_id) h =
      let change = success_row now saved_id in
      omega (arith, waiting-update k change (λ row new e. ground arith))
  step_waiting now (failure k) h =
      let change = failure_row now in
      omega (arith, waiting-update k change (λ row new e. ground arith))
  step_waiting now (finish k) h =
      let change = complete_row now in
      omega (arith, waiting-update k change (λ row new e. ground arith))
  step_waiting now (fail accepts k message) h =
      let change = failed_row accepts now message in
      omega (arith, waiting-update k change (λ row new e. ground arith))
  step_waiting now (remove user_id k) h = elim (delete_job-cases user_id k j) [
    | inl same ↦ rw same (omega arith)
    | inr e ↦ rw e (omega (arith, waiting-erase k))
  ]

-- From a consistent table, through any history of statements, a job is handed to workers at most as often
-- as it is created, and once more if it waits at the start; so of all claims, by any workers, one at most
-- returns a job that is created once.
pub claims-le-creates :
    (id : String) (h : History) (j : ImportTable)
    → IsConsistent j
    → claims id h j ≤ creates id h j + waiting (lookup id j)
unfolding claims creates
claims-le-creates id [] j c = omega arith
claims-le-creates id ((now, s) ∷ h) j c = omega (
  arith,
  step_waiting id j now s c,
  claims-le-creates id h (after now s j) (after-IsConsistent now j c s),
)
