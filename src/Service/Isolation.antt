-- ===== src/Service/Isolation.antt =====
-- One user's requests, and the worker on one user's jobs, against the rows of other users.
use google_photos_picker.Base.{
  ℕ, String, ◌≡◌, ◌≢◌, refl, sym, subst, inl, inr, some, lookup, insert as insert_key, erase,
  lookup-insert, lookup-erase, eq_iff, eq_refl, ◌∙◌, ◌==◌, Bool-cases, arith, Option-cases,
}
use google_photos_picker.Exec.{Result, ok, Context}
use google_photos_picker.System.{System}
use google_photos_picker.OAuth.{Oauth2}
use google_photos_picker.Cryptobox.{Box}
use google_photos_picker.Stores.{ImportJob, Metadata}
use google_photos_picker.Stores.Keeping.{ImportsKeep, JobKeeps, TokensKeep}
use google_photos_picker.Picker.{Readers}
use google_photos_picker.Client.{World}
use google_photos_picker.Handlers.{Incoming, Handlers}
use google_photos_picker.Handlers.Access.{Operation, serve}
use google_photos_picker.Handlers.Effects.{serve-Kept}
use google_photos_picker.Worker.{Worker, process_job}
use google_photos_picker.Worker.Effects.{process_job-Keeps}
use google_photos_picker.Postgres.Database.{Database}
use google_photos_picker.Postgres.Tokens.{TokenTable, pg_token_store}
use google_photos_picker.Postgres.Tokens.Rows.{pg_token_store-TokensKeep}
use google_photos_picker.Postgres.Imports.Effects.{
  pg_import_store-ImportsKeep, pg_import_store-JobKeeps,
}
use google_photos_picker.Postgres.Imports.{
  ImportRow, ImportTable, pg_import_store, update_job, delete_job, total_row, success_row,
  failure_row, complete_row, failed_row,
}
use google_photos_picker.Postgres.Imports.Rows.{Kept as KeptBy, after, insert, remove}
use google_photos_picker.Postgres.Imports.Lifecycle.{insert_job-cases, update_job-cases}

-- The rows of all users but this one are the same in the two tables.
pub record SameOthers (user_id : String) (j j' : ImportTable) : Type 0 where
  pub kept :
      (id : String) (row : ImportRow)
      → row.user_id ≢ user_id
      → lookup id j ≡ some row
      → lookup id j' ≡ some row
  pub added :
      (id : String) (row : ImportRow)
      → row.user_id ≢ user_id
      → lookup id j' ≡ some row
      → lookup id j ≡ some row

SameOthers-refl : (user_id : String) (j : ImportTable) → SameOthers user_id j j
SameOthers-refl user_id j = record { kept = λ id row ne e. e; added = λ id row ne e. e }

-- The row of this id, if there is one, is the user's.
abbrev pub IsOwn : String → String → ImportTable → Type 0
IsOwn user_id id j = (row : ImportRow) → lookup id j ≡ some row → row.user_id ≡ user_id

module _ (user_id : String) (before : ImportTable) (id : String) (j : ImportTable)
    (own : IsOwn user_id id j) (same : SameOthers user_id before j) where
  insert-SameOthers :
      (new : ImportRow) → new.user_id ≡ user_id → SameOthers user_id before (insert_key id new j)
  insert-SameOthers new mine = record {
    kept = λ k row other e.
        ground (arith, lookup-insert id k new j, eq_iff id k, same.kept k row other e, own row);
    added = λ k row other e.
        same.added k row other (ground (arith, lookup-insert id k new j, eq_iff id k));
  }

  erase-SameOthers : SameOthers user_id before (erase id j)
  erase-SameOthers = record {
    kept = λ k row other e.
        ground (arith, lookup-erase id k j, eq_iff id k, same.kept k row other e, own row);
    added = λ k row other e. same.added k row other (ground (arith, lookup-erase id k j));
  }

module _ (user_id : String) (before : ImportTable) where
  insert_job-SameOthers :
      (id session_id : String) (meta : Metadata)
      → KeptBy (SameOthers user_id before) (insert id user_id session_id meta)
  unfolding after
  insert_job-SameOthers id session_id meta now j same =
      elim (insert_job-cases id user_id session_id meta now j) [
        | inl e ↦ subst (SameOthers user_id before) (sym e) same
        | inr (free, e) ↦
            subst (SameOthers user_id before) (sym e)
              (insert-SameOthers user_id before id j (λ row f. cc (f, free)) same _ refl)
      ]

  delete_job-SameOthers : (id : String) → KeptBy (SameOthers user_id before) (remove user_id id)
  unfolding after delete_job
  delete_job-SameOthers id now j same = elim (Option-cases (lookup id j)) [
    | inl missing ↦ subst (SameOthers user_id before) (ground (arith, missing)) same
    | inr (row, found) ↦ elim (Bool-cases (row.user_id == user_id)) [
      | inl mine ↦ subst (SameOthers user_id before) (ground (arith, found, mine)) (
          erase-SameOthers user_id before id j
            (λ row' f. ground (arith, found, f, mine, eq_iff row.user_id user_id)) same)
      | inr other ↦ subst (SameOthers user_id before) (ground (arith, found, other)) same
    ]
  ]

  -- The user's own job, beside the rows of others.
  abbrev Owned : String → ImportTable → Type 0
  Owned id j = SameOthers user_id before j × IsOwn user_id id j

  -- An update of the user's own job.
  update_job-Owned :
      (id : String) (change : ImportRow → Result ImportRow) (j : ImportTable)
      → ((row new : ImportRow) → change row ≡ ok new → new.user_id ≡ row.user_id)
      → Owned id j
      → Owned id (update_job id change j).1
  update_job-Owned id change j owner (same, own) = elim (update_job-cases id change j) [
    | inl e ↦ rw e (same, own)
    | inr w ↦
        let mine = owner w.row w.new w.changed ∙ own w.row w.present in
        rw w.table_eq (
          insert-SameOthers user_id before id j own same w.new mine,
          λ row f. ground (arith, lookup-insert id id w.new j, eq_refl id, mine),
        )
  ]

  pub own_job-JobKeeps :
      {X : Type 0} (db : Database X) (id : String) → JobKeeps (Owned id) (pg_import_store db) id
  unfolding after
  own_job-JobKeeps db id =
      pg_import_store-JobKeeps (Owned id) db id
        (λ n now j. update_job-Owned id (total_row now n) j (λ row new e. ground arith))
        (λ saved_id now j.
          update_job-Owned id (success_row now saved_id) j (λ row new e. ground arith))
        (λ now j. update_job-Owned id (failure_row now) j (λ row new e. ground arith))
        (λ now j. update_job-Owned id (complete_row now) j (λ row new e. ground arith))
        (λ message now j.
          update_job-Owned id (failed_row db.accepts_text now message) j
            (λ row new e. ground arith))

module _ (user_id other : String) (ne : user_id ≢ other) (before : TokenTable) where
  abbrev SameRow : TokenTable → Type 0
  SameRow t = lookup other t ≡ lookup other before

  pub own_tokens-TokensKeep :
      {X : Type 0} (sys : System X) (db : Database X) (box : Box)
      → TokensKeep SameRow (pg_token_store sys db box) user_id
  own_tokens-TokensKeep sys db box =
      pg_token_store-TokensKeep SameRow sys db box user_id
        (λ old new t f same.
          ground (arith, lookup-insert user_id other new t, eq_iff user_id other))
        (λ t same. ground (arith, lookup-erase user_id other t, eq_iff user_id other))

-- The server on PostgreSQL.
module _ {X : Type 0} (sys : System X) (lib : Oauth2 X) (readers : Readers) (db : Database X)
    (box : Box) where
  -- The tokens of the other user, and all jobs but the user's own, are the same in both worlds.
  abbrev pub LeavesOthers :
      String → String → World TokenTable ImportTable X → World TokenTable ImportTable X → Type 0
  LeavesOthers user_id other w w' =
      (lookup other w'.tokens ≡ lookup other w.tokens) × SameOthers user_id w.imports w'.imports

  -- Over PostgreSQL, a request of one user, through any handler but the callback, leaves the tokens of
  -- every other user and the jobs of all other users as they are, whatever its contents, however it ends
  -- and whatever the network and the database do.
  pub serve-LeavesOthers :
      (h : Handlers TokenTable ImportTable X)
      → h.client.tokens ≡ pg_token_store sys db box
      → h.client.imports ≡ pg_import_store db
      → (r : Incoming X) (user_id other : String) → r.user ≡ ok user_id
      → user_id ≢ other
      → (op : Operation sys lib readers h) (w : World TokenTable ImportTable X)
      → LeavesOthers user_id other w (serve sys lib readers h op r w).1
  serve-LeavesOthers h stored queued r user_id other known ne op w =
      let (t, j, _) =
        serve-Kept (SameRow user_id other ne w.tokens) (SameOthers user_id w.imports)
          (λ s. Unit {0}) sys lib readers h r user_id known
          (subst (λ s. TokensKeep (SameRow user_id other ne w.tokens) s user_id) (sym stored)
            (own_tokens-TokensKeep user_id other ne w.tokens sys db box))
          (subst (λ s. ImportsKeep (SameOthers user_id w.imports) s user_id) (sym queued)
            (pg_import_store-ImportsKeep (SameOthers user_id w.imports) db user_id
              (insert_job-SameOthers user_id w.imports) (delete_job-SameOthers user_id w.imports)))
          op w (λ same state now s q. q) (refl, SameOthers-refl user_id w.imports, tt) in
      (t, j)

  -- Over PostgreSQL, a worker that processes a job whose row is its user's, or gone, leaves the tokens
  -- of every other user and the jobs of all other users as they are, however the import goes.
  pub process_job-LeavesOthers :
      (worker : Worker TokenTable ImportTable X)
      → worker.client.tokens ≡ pg_token_store sys db box
      → worker.client.imports ≡ pg_import_store db
      → (pages : ℕ) (ctx : Context X) (job : ImportJob) (other : String)
        (w : World TokenTable ImportTable X)
      → job.user_id ≢ other
      → IsOwn job.user_id job.id w.imports
      → LeavesOthers job.user_id other w (process_job sys lib readers worker pages ctx job w).1
  process_job-LeavesOthers worker stored queued pages ctx job other w ne own =
      let (t, (j, _), _) =
        (process_job-Keeps (SameRow job.user_id other ne w.tokens)
            (Owned job.user_id w.imports job.id) (λ s. Unit {0}) sys lib readers worker job
            (subst (λ s. TokensKeep (SameRow job.user_id other ne w.tokens) s job.user_id)
              (sym stored) (own_tokens-TokensKeep job.user_id other ne w.tokens sys db box))
            (subst (λ s. JobKeeps (Owned job.user_id w.imports job.id) s job.id) (sym queued)
              (own_job-JobKeeps job.user_id w.imports db job.id))
            pages ctx).at
          w (refl, (SameOthers-refl job.user_id w.imports, own), tt) in
      (t, j)
