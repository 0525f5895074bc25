-- ===== src/Postgres/Imports/Reading.antt =====
-- `CreateJob` and `Get` (postgres/imports.go): what a caller sees of a job.
use google_photos_picker.Base.{
  String, ◌≡◌, ◌≢◌, ◌⊎◌, inl, inr, refl, sym, ap, ◌∙◌, subst, none, some, lookup, lookup-erase,
  erase, eq_iff, eq_refl, if◌then◌else◌, arith, Option-cases,
}
use google_photos_picker.Exec.{ok, Context}
use google_photos_picker.Stores.{ImportJob, ImportStatus, pending, running, complete, failed}
use google_photos_picker.Postgres.Database.{Database}
use google_photos_picker.Postgres.Imports.{
  ImportRow, ImportTable, job_of, or_empty, is_terminal, get,
}

-- The database answers every statement under the context.
abbrev pub IsUp : {X : Type 0} → Database X → Context X → Type 0
IsUp {X} db ctx =
    (x : X) → (ctx x ≡ none) × ((db.round_trip x).0 ≡ none) × (db.lost_answer x ≡ none)

abbrev pub whole_job : String → ImportRow → ImportJob
whole_job id row = job_of id row row.saved_ids (or_empty row.error)

-- What a reader is told of a row: every column, with no error for NULL.
pub record IsReading (id : String) (row : ImportRow) (job : ImportJob) : Type 0 where
  pub of_id : job.id ≡ id
  pub of_user : job.user_id ≡ row.user_id
  pub of_session : job.session_id ≡ row.session_id
  pub status : job.status ≡ row.status
  pub total : job.total_items ≡ row.total_items
  pub completed : job.completed_items ≡ row.completed_items
  pub failures : job.failed_items ≡ row.failed_items
  pub saved : job.saved_ids ≡ row.saved_ids
  pub metadata : job.metadata ≡ some row.metadata
  pub message : (row.error ≡ some job.error) ⊎ ((row.error ≡ none) × (job.error ≡ ""))

whole_job-IsReading : (id : String) (row : ImportRow) → IsReading id row (whole_job id row)
whole_job-IsReading id row = record {
  of_id = refl;
  of_user = refl;
  of_session = refl;
  status = refl;
  total = refl;
  completed = refl;
  failures = refl;
  saved = refl;
  metadata = refl;
  message = elim (Option-cases row.error) [
    | inl missing ↦ inr (missing, ap or_empty missing)
    | inr (message, present) ↦ inl (present ∙ ap some (sym (ap or_empty present)))
  ];
}

-- The table after a reading: as it was while the job is going, and without the job once it is over.
pub data Left (id : String) (status : ImportStatus) (j j' : ImportTable) : Type 0 where
  stays : (status ≡ pending) ⊎ (status ≡ running) → j' ≡ j → Left id status j j'
  leaves :
      (status ≡ complete) ⊎ (status ≡ failed)
      → lookup id j' ≡ none
      → ((other : String) → id ≢ other → lookup other j' ≡ lookup other j)
      → Left id status j j'

erased : (id : String) (j : ImportTable) → lookup id (erase id j) ≡ none
erased id j = ground (arith, lookup-erase id id j, eq_refl id)

erased_ne :
    (id other : String) (j : ImportTable) → id ≢ other → lookup other (erase id j) ≡ lookup other j
erased_ne id other j ne = ground (arith, lookup-erase id other j, eq_iff id other)

module _ {X : Type 0} (db : Database X) (ctx : Context X) where
  -- To a user who does not own the job, a `Get` returns no job, and leaves the table alone.
  pub get_other :
      (user_id id : String) (row : ImportRow) (j : ImportTable) (x : X)
      → lookup id j ≡ some row
      → row.user_id ≢ user_id
      → ((get db ctx user_id id (j, x)).1.0 ≡ j)
        × ((job : ImportJob) → (get db ctx user_id id (j, x)).0 ≢ ok job)
  unfolding get
  get_other user_id id row j x f ne = (
    ground (arith, eq_iff row.user_id user_id),
    λ job h. ground (arith, eq_iff row.user_id user_id),
  )

  module _ (up : IsUp db ctx) (user_id id : String) (j : ImportTable) (x : X) where
    -- While the database answers every statement under the context, the owner of a job reads each column of
    -- its row; a job that is still going stays, and one that is complete or failed is gone from then on,
    -- and no other with it.
    pub get_owner :
        (row : ImportRow)
        → lookup id j ≡ some row
        → row.user_id ≡ user_id
        → ((job : ImportJob) × ((get db ctx user_id id (j, x)).0 ≡ ok job) × IsReading id row job)
          × Left id row.status j (get db ctx user_id id (j, x)).1.0
    unfolding get
    get_owner row f own =
        let later = (db.round_trip x).1 in
        (
          (
            whole_job id row,
            ground (arith, eq_iff row.user_id user_id, up x, up later),
            whole_job-IsReading id row,
          ),
          Left-same _ _ (left row.status)
              (ground (arith, eq_iff row.user_id user_id, up x, up later)),
        )
      where
        Left-same :
            (j' j'' : ImportTable) → Left id row.status j j' → j'' ≡ j' → Left id row.status j j''
        Left-same j' j'' l e = subst (Left id row.status j) (sym e) l

        left :
            (status : ImportStatus)
            → Left id status j (if is_terminal status then erase id j else j)
        left pending = stays (inl refl) refl
        left running = stays (inr refl) refl
        left complete = leaves (inl refl) (erased id j) (λ other ne. erased_ne id other j ne)
        left failed = leaves (inr refl) (erased id j) (λ other ne. erased_ne id other j ne)
