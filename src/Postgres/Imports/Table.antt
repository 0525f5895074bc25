-- ===== src/Postgres/Imports/Table.antt =====
-- The table photopicker_imports (postgres/schema.go) and the statements of postgres/imports.go on it.
use google_photos_picker.Base.{
  ℕ, ◌+◌, String, Bool, true, false, not, ◌&&◌, Option, none, some, List, [], ◌∷◌, ◌++◌, StringMap,
  lookup, insert, erase, ◌==◌, ltb, if◌then◌else◌,
}
use google_photos_picker.Errors.{sentinel, job_not_found, is, sql_no_rows}
use google_photos_picker.Exec.{Result, ok, err, Exec}
use google_photos_picker.Stores.{
  ImportStatus, pending, running, complete, failed, Metadata, ImportJob,
}
use google_photos_picker.Postgres.Database.{
  fits_varchar, value_too_long, unique_violation, out_of_range, fits_int, invalid_byte_sequence,
}

pub record ImportRow : Type 0 where
  pub user_id : String
  pub session_id : String
  pub status : ImportStatus
  pub total_items : ℕ
  pub completed_items : ℕ
  pub failed_items : ℕ
  pub saved_ids : List String
  pub metadata : StringMap String
  pub error : Option String
  pub created_at : ℕ
  pub updated_at : ℕ

abbrev pub ImportTable : Type 0
ImportTable = StringMap ImportRow

-- `metaJSON := []byte("{}")` unless there is a map.
abbrev pub stored_metadata : Metadata → StringMap String
stored_metadata none = []
stored_metadata (some m) = m

abbrev pub new_row : String → String → Metadata → ℕ → ImportRow
new_row user_id session_id meta now = record {
  user_id = user_id;
  session_id = session_id;
  status = pending;
  total_items = 0;
  completed_items = 0;
  failed_items = 0;
  saved_ids = [];
  metadata = stored_metadata meta;
  error = none;
  created_at = now;
  updated_at = now;
}

-- INSERT, under the constraints of the table.
unfoldable pub insert_job : String → String → String → Metadata → ℕ → Exec ImportTable String
insert_job id user_id session_id meta now j =
    if fits_varchar 50 id && fits_varchar 255 user_id
    then elim (lookup id j) [
      | some _ ↦ (err unique_violation, j)
      | none ↦ (ok id, insert id (new_row user_id session_id meta now) j)
    ]
    else (err value_too_long, j)

abbrev pub is_pending : ImportStatus → Bool
is_pending pending = true
is_pending _ = false

-- Whether a claim may take the row: it is pending, and no other transaction holds it.
abbrev pub claimable : (String → Bool) → String → ImportRow → Bool
claimable locked id row = is_pending row.status && not (locked id)

abbrev pub older : Option (String × ImportRow) → String → ImportRow → String × ImportRow
older none id row = (id, row)
older (some (id', row')) id row =
    if ltb row'.created_at row.created_at then (id', row') else (id, row)

-- SELECT id … WHERE status = 'pending' ORDER BY created_at ASC FOR UPDATE SKIP LOCKED LIMIT 1.
-- Between rows of one instant the server may choose; this takes the first of the table.
unfoldable pub oldest : (String → Bool) → ImportTable → Option (String × ImportRow)
oldest locked [] = none
oldest locked ((id, row) ∷ j) =
    let rest = oldest locked j in if claimable locked id row then some (older rest id row) else rest

-- The columns that RETURNING and SELECT scan into an `ImportJob`.
abbrev pub job_of : String → ImportRow → List String → String → ImportJob
job_of id row saved_ids error = record {
  id = id;
  user_id = row.user_id;
  session_id = row.session_id;
  status = row.status;
  total_items = row.total_items;
  completed_items = row.completed_items;
  failed_items = row.failed_items;
  saved_ids = saved_ids;
  metadata = some row.metadata;
  error = error;
}

abbrev pub start_row : ℕ → ImportRow → ImportRow
start_row now row = record row { status = running; updated_at = now }

-- UPDATE … SET status = 'running' WHERE id = (…) RETURNING …; no row is `sql.ErrNoRows`, which the
-- code turns into a nil job.
unfoldable pub claim_row : (String → Bool) → ℕ → Exec ImportTable (Option ImportJob)
unfolding oldest
claim_row locked now j = elim (oldest locked j) [
  | none ↦ (ok none, j)
  | some (id, row) ↦
      (ok (some (job_of id (start_row now row) [] "")), insert id (start_row now row) j)
]

-- UPDATE … WHERE id = $1 with the new columns, or the error of a column that refuses its value.
-- No row, no effect and no error.
unfoldable pub update_job : String → (ImportRow → Result ImportRow) → Exec ImportTable (Unit {0})
update_job id change j = elim (lookup id j) [
  | none ↦ (ok tt, j)
  | some row ↦ elim (change row) [ err e ↦ (err e, j) | ok row' ↦ (ok tt, insert id row' j) ]
]

abbrev pub total_row : ℕ → ℕ → ImportRow → Result ImportRow
total_row now total row =
    if fits_int total
    then ok (record row { total_items = total; updated_at = now })
    else err out_of_range

abbrev pub success_row : ℕ → String → ImportRow → Result ImportRow
success_row now saved_id row =
    if fits_int (row.completed_items + 1)
    then ok (record row {
      completed_items = row.completed_items + 1;
      saved_ids = row.saved_ids ++ saved_id ∷ [];
      updated_at = now;
    })
    else err out_of_range

abbrev pub failure_row : ℕ → ImportRow → Result ImportRow
failure_row now row =
    if fits_int (row.failed_items + 1)
    then ok (record row { failed_items = row.failed_items + 1; updated_at = now })
    else err out_of_range

abbrev pub complete_row : ℕ → ImportRow → Result ImportRow
complete_row now row = ok (record row { status = complete; updated_at = now })

-- The server refuses a message that is no TEXT.
abbrev pub failed_row : (String → Bool) → ℕ → String → ImportRow → Result ImportRow
failed_row accepts now message row =
    if accepts message
    then ok (record row { status = failed; error = some message; updated_at = now })
    else err invalid_byte_sequence

abbrev pub or_empty : Option String → String
or_empty none = ""
or_empty (some s) = s

-- SELECT … WHERE id = $1 AND user_id = $2
unfoldable pub select_job : String → String → Exec ImportTable ImportJob
select_job user_id id j = elim (lookup id j) [
  | none ↦ (err (sentinel sql_no_rows), j)
  | some row ↦
      if row.user_id == user_id
      then (ok (job_of id row row.saved_ids (or_empty row.error)), j)
      else (err (sentinel sql_no_rows), j)
]

-- DELETE … WHERE id = $1 AND user_id = $2
unfoldable pub delete_job : String → String → Exec ImportTable (Unit {0})
delete_job user_id id j = elim (lookup id j) [
  | none ↦ (ok tt, j)
  | some row ↦ if row.user_id == user_id then (ok tt, erase id j) else (ok tt, j)
]

abbrev pub is_terminal : ImportStatus → Bool
is_terminal complete = true
is_terminal failed = true
is_terminal _ = false

abbrev pub found_job : Result ImportJob → Result ImportJob
found_job (ok job) = ok job
found_job (err e) = if is e sql_no_rows then err (sentinel job_not_found) else err e
