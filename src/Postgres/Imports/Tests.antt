-- ===== src/Postgres/Imports/Tests.antt =====
-- The theorems of the queue at concrete inputs.
use google_photos_picker.Base.{
  ℕ, String, ◌≡◌, refl, some, none, Bool, false, [], ◌∷◌, lookup, insert, erase, HasUniqueKeys, ◌+◌,
  ◌≤◌, arith,
}
use google_photos_picker.Exec.{ok, err}
use google_photos_picker.Stores.{ImportJob}
use google_photos_picker.Stores.Progress.{ProgressContract, IsAllOrNothing}
use google_photos_picker.Postgres.Database.{Database}
use google_photos_picker.Errors.{other as other_error}
use google_photos_picker.Postgres.Imports.{
  ImportRow, ImportTable, new_row, start_row, job_of, oldest, claim_row, update_job, insert_job,
  pg_import_store, create_job, get, mark_complete,
}
use google_photos_picker.Postgres.Imports.Rows.{Stmt, after}
use google_photos_picker.Postgres.Imports.Lifecycle.{IsConsistent}
use google_photos_picker.Postgres.Imports.SingleClaim.{
  History, claims, creates, waiting, claims-le-creates,
}
use google_photos_picker.Postgres.Imports.Reading.{IsUp, IsReading, Left, get_owner}
use google_photos_picker.Postgres.Imports.Progress.{
  view, pg_import_store-IsAllOrNothing, pg_import_store-ProgressContract,
}
use google_photos_picker.Postgres.Imports.Keeping.{KeepsConsistent, pg_import_store-KeepsConsistent}
use google_photos_picker.Toy.{toy_database, background}

-- Two jobs wait, and the second of the table is older.
abbrev table : ImportTable
table = ("j1", new_row "alice" "s1" none 9) ∷ ("j2", new_row "bob" "s2" none 5) ∷ []

abbrev nobody : String → Bool
nobody id = false

run : Unit {0}
unfolding mark_complete claim_row oldest lookup insert create_job insert_job claims creates get
    after update_job erase
run = tt

abbrev taken : ImportJob
taken = job_of "j2" (start_row 20 (new_row "bob" "s2" none 5)) [] ""

unique : HasUniqueKeys table
unfolding run
unique = (refl, (refl, tt))

empty-IsConsistent : IsConsistent []
unfolding run
empty-IsConsistent = record { unique = tt; rows = λ id row e. ground arith }

-- Two workers claim one after the other, and the second gets the second job.
abbrev day : History
day =
    (1, Stmt.insert "j1" "alice" "s1" none)
    ∷ (2, Stmt.insert "j2" "bob" "s2" none)
    ∷ (3, Stmt.claim nobody)
    ∷ (3, Stmt.claim nobody)
    ∷ (4, Stmt.success "j1" "a")
    ∷ (5, Stmt.finish "j1")
    ∷ (6, Stmt.remove "alice" "j1")
    ∷ (7, Stmt.claim nobody)
    ∷ []

day_counts : (claims "j1" day [] ≡ 1) × (claims "j2" day [] ≡ 1) × (creates "j1" day [] ≡ 1)
unfolding run
day_counts = (refl, refl, refl)

claims-le-creates_example :
    claims "j1" day [] ≤ creates "j1" day [] + waiting (lookup {V = ImportRow} "j1" [])
claims-le-creates_example = claims-le-creates "j1" day [] empty-IsConsistent

pg_import_store-KeepsConsistent_example : KeepsConsistent toy_database background
pg_import_store-KeepsConsistent_example = pg_import_store-KeepsConsistent toy_database background

pg_import_store-ProgressContract_example : ProgressContract view (pg_import_store toy_database)
pg_import_store-ProgressContract_example = pg_import_store-ProgressContract toy_database (λ x. refl)

-- Here the answer of every statement is lost.
abbrev forgetful : Database ℕ
forgetful = record toy_database { lost_answer = λ x. some "driver: bad connection" }

pg_import_store-IsAllOrNothing_example : IsAllOrNothing view (pg_import_store forgetful)
pg_import_store-IsAllOrNothing_example = pg_import_store-IsAllOrNothing forgetful

-- The table is changed all the same, and the caller has an error.
changed_unheard :
    (mark_complete forgetful background "j2" (table, 7)).0
    ≡ err (other_error "driver: bad connection")
unfolding run
changed_unheard = refl

database-IsUp : IsUp toy_database background
database-IsUp x = (refl, refl, refl)

bobs : lookup "j2" table ≡ some (new_row "bob" "s2" none 5)
unfolding run
bobs = refl

get_owner_example :
    ((read : ImportJob) × ((get toy_database background "bob" "j2" (table, 7)).0 ≡ ok read)
      × IsReading "j2" (new_row "bob" "s2" none 5) read)
    × Left "j2"
        (new_row "bob" "s2" none 5).status
        table
        (get toy_database background "bob" "j2" (table, 7)).1.0
get_owner_example =
    get_owner toy_database background database-IsUp "bob" "j2" table 7 (new_row "bob" "s2" none 5)
      bobs refl
