-- ===== src/Postgres/Imports/Lifecycle.antt =====
-- The invariant of the queue's table, under the statements of any workers and handlers.
use google_photos_picker.Base.{
  ℕ, ◌≤◌, String, ◌≡◌, ◌≢◌, sym, subst, Bool, none, some, [], ◌∷◌, lookup, insert as insert_key,
  erase, HasUniqueKeys, lookup-insert, lookup-erase, insert-HasUniqueKeys, erase-HasUniqueKeys,
  length, length-append, Bool-cases, Option-cases, inl, inr, ◌⊎◌, ◌==◌, arith,
}
use google_photos_picker.Exec.{Result, ok, Result-cases}
use google_photos_picker.Stores.{failed, ImportJob, Metadata}
use google_photos_picker.Postgres.Imports.{
  ImportRow, ImportTable, new_row, insert_job, start_row, claim_row, update_job, delete_job,
}
use google_photos_picker.Postgres.Imports.Claim.{IsClaimed, claim_row-some, claim_row-none}
use google_photos_picker.Postgres.Imports.Rows.{
  Stmt, insert, claim, total, success, failure, finish, fail, remove, after,
}

-- The counters of a row: one saved id for each completed item, each counter within the INT column,
-- and a message on every failed job.
pub record RowIsConsistent (row : ImportRow) : Type 0 where
  pub counted : row.completed_items ≡ length row.saved_ids
  pub completed_fits : row.completed_items ≤ 2147483647
  pub failed_fits : row.failed_items ≤ 2147483647
  pub total_fits : row.total_items ≤ 2147483647
  pub failure_named : row.status ≡ failed → row.error ≢ none

pub record IsConsistent (j : ImportTable) : Type 0 where
  pub unique : HasUniqueKeys j
  pub rows : (id : String) (row : ImportRow) → lookup id j ≡ some row → RowIsConsistent row

insert-IsConsistent :
    (id : String) (row : ImportRow) (j : ImportTable)
    → RowIsConsistent row
    → IsConsistent j
    → IsConsistent (insert_key id row j)
insert-IsConsistent id row j new h = record {
  unique = insert-HasUniqueKeys id row j h.unique;
  rows = λ k r f. elim (Bool-cases (id == k)) [
    | inl same ↦ subst RowIsConsistent (ground (arith, lookup-insert id k row j)) new
    | inr differ ↦ h.rows k r (ground (arith, lookup-insert id k row j))
  ];
}

erase-IsConsistent : (id : String) (j : ImportTable) → IsConsistent j → IsConsistent (erase id j)
erase-IsConsistent id j h = record {
  unique = erase-HasUniqueKeys id j h.unique;
  rows = λ k r f. h.rows k r (ground (arith, lookup-erase id k j));
}

-- Every statement leaves the table, or writes or deletes one row.
pub insert_job-cases :
    (id user_id session_id : String) (meta : Metadata) (now : ℕ) (j : ImportTable)
    → ((insert_job id user_id session_id meta now j).1 ≡ j)
      ⊎ ((lookup id j ≡ none)
          × ((insert_job id user_id session_id meta now j).1
              ≡ insert_key id (new_row user_id session_id meta now) j))
unfolding insert_job
insert_job-cases id user_id session_id meta now j = ground arith

pub record Rewritten (id : String) (change : ImportRow → Result ImportRow) (j j' : ImportTable)
    : Type 0 where
  pub row : ImportRow
  pub new : ImportRow
  pub present : lookup id j ≡ some row
  pub changed : change row ≡ ok new
  pub table_eq : j' ≡ insert_key id new j

pub update_job-cases :
    (id : String) (change : ImportRow → Result ImportRow) (j : ImportTable)
    → ((update_job id change j).1 ≡ j) ⊎ Rewritten id change j (update_job id change j).1
unfolding update_job
update_job-cases id change j = elim (Option-cases (lookup id j)) [
  | inl missing ↦ inl (ground arith)
  | inr (row, present) ↦ elim (Result-cases (change row)) [
    | inl (new, changed) ↦ inr (record {
      row = row;
      new = new;
      present = present;
      changed = changed;
      table_eq = ground arith;
    })
    | inr (e, refused) ↦ inl (ground arith)
  ]
]

pub claim_row-cases :
    (locked : String → Bool) (now : ℕ) (j : ImportTable)
    → HasUniqueKeys j
    → (((claim_row locked now j).0 ≡ ok none) × ((claim_row locked now j).1 ≡ j))
      ⊎ ((job : ImportJob) × ((claim_row locked now j).0 ≡ ok (some job))
          × IsClaimed locked now job j (claim_row locked now j).1)
claim_row-cases locked now j u = elim (Result-cases (claim_row locked now j).0) [
  | inl (none, r) ↦ inl (r, (claim_row-none locked now j r).0)
  | inl (some job, r) ↦ inr (job, r, claim_row-some locked now j job u r)
  | inr (e, r) ↦ absurd (unfold claim_row in ground arith)
]

pub delete_job-cases :
    (user_id id : String) (j : ImportTable)
    → ((delete_job user_id id j).1 ≡ j) ⊎ ((delete_job user_id id j).1 ≡ erase id j)
unfolding delete_job
delete_job-cases user_id id j = ground arith

module _ (now : ℕ) (j : ImportTable) (h : IsConsistent j) where
  update_job-IsConsistent :
      (id : String) (change : ImportRow → Result ImportRow)
      → ((row new : ImportRow) → RowIsConsistent row → change row ≡ ok new → RowIsConsistent new)
      → IsConsistent (update_job id change j).1
  update_job-IsConsistent id change good = elim (update_job-cases id change j) [
    | inl same ↦ subst IsConsistent (sym same) h
    | inr w ↦
        subst IsConsistent (sym w.table_eq) (
          insert-IsConsistent id w.new j (good w.row w.new (h.rows id w.row w.present) w.changed) h)
  ]

  insert_job-IsConsistent :
      (id user_id session_id : String) (meta : Metadata)
      → IsConsistent (insert_job id user_id session_id meta now j).1
  insert_job-IsConsistent id user_id session_id meta =
      elim (insert_job-cases id user_id session_id meta now j) [
        | inl same ↦ subst IsConsistent (sym same) h
        | inr (fresh, e) ↦
            subst IsConsistent (sym e)
              (insert-IsConsistent id (new_row user_id session_id meta now) j (ground arith) h)
      ]

  claim_row-IsConsistent : (locked : String → Bool) → IsConsistent (claim_row locked now j).1
  claim_row-IsConsistent locked = elim (claim_row-cases locked now j h.unique) [
    | inl (_, same) ↦ subst IsConsistent (sym same) h
    | inr (job, _, c) ↦ subst IsConsistent (sym c.table_eq) (
        insert-IsConsistent job.id (start_row now c.row) j
          (ground (arith, h.rows job.id c.row c.was_oldest.present)) h)
  ]

  delete_job-IsConsistent : (user_id id : String) → IsConsistent (delete_job user_id id j).1
  delete_job-IsConsistent user_id id = elim (delete_job-cases user_id id j) [
    | inl same ↦ subst IsConsistent (sym same) h
    | inr e ↦ subst IsConsistent (sym e) (erase-IsConsistent id j h)
  ]

  -- Every statement keeps the table consistent.
  pub after-IsConsistent : (s : Stmt) → IsConsistent (after now s j)
  unfolding after
  after-IsConsistent (insert id user_id session_id meta) =
      insert_job-IsConsistent id user_id session_id meta
  after-IsConsistent (claim locked) = claim_row-IsConsistent locked
  after-IsConsistent (total id n) = update_job-IsConsistent id _ (λ row new c e. ground arith)
  after-IsConsistent (success id saved_id) =
      update_job-IsConsistent id _
        (λ row new c e. ground (arith, length-append row.saved_ids (saved_id ∷ [])))
  after-IsConsistent (failure id) = update_job-IsConsistent id _ (λ row new c e. ground arith)
  after-IsConsistent (finish id) = update_job-IsConsistent id _ (λ row new c e. ground arith)
  after-IsConsistent (fail accepts id message) =
      update_job-IsConsistent id _ (λ row new c e. ground arith)
  after-IsConsistent (remove user_id id) = delete_job-IsConsistent user_id id
