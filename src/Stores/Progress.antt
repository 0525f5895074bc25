-- ===== src/Stores/Progress.antt =====
-- What the worker relies on of an `ImportStore` while it imports a job: how each of the five updates
-- changes what the store holds of the job. `view` gives a job as `Get` would return it.
use google_photos_picker.Base.{ℕ, ◌+◌, ◌≤◌, ◌<◌, String, ◌≡◌, ◌≢◌, ◌⊎◌, Option, some, [], ◌∷◌, ◌++◌}
use google_photos_picker.Errors.{Error}
use google_photos_picker.Exec.{ok, err, Exec, Context}
use google_photos_picker.Stores.{ImportJob, ImportStore, complete, failed}

abbrev pub counted_total : ℕ → ImportJob → ImportJob
counted_total n job = record job { total_items = n }

abbrev pub counted_success : String → ImportJob → ImportJob
counted_success saved_id job = record job {
  completed_items = job.completed_items + 1;
  saved_ids = job.saved_ids ++ saved_id ∷ [];
}

abbrev pub counted_failure : ImportJob → ImportJob
counted_failure job = record job { failed_items = job.failed_items + 1 }

abbrev pub completed : ImportJob → ImportJob
completed job = record job { status = complete }

abbrev pub given_up : String → ImportJob → ImportJob
given_up message job = record job { status = failed; error = message }

module _ {J X : Type 0} (view : J → String → Option ImportJob) where
  -- The operation changes the one job so, or fails and changes nothing.
  pub record Updates (op : Exec (J × X) (Unit {0})) (id : String) (f : ImportJob → ImportJob)
      : Type 0 where
    pub changed :
        (j : J) (x : X) (job : ImportJob)
        → (op (j, x)).0 ≡ ok tt
        → view j id ≡ some job
        → view (op (j, x)).1.0 id ≡ some (f job)
    pub kept : (j : J) (x : X) (e : Error) → (op (j, x)).0 ≡ err e → (op (j, x)).1.0 ≡ j
    pub others :
        (j : J) (x : X) (other : String) → id ≢ other → view (op (j, x)).1.0 other ≡ view j other

  pub record ProgressContract (store : ImportStore J X) : Type 0 where
    pub total :
        (ctx : Context X) (id : String) (n : ℕ)
        → Updates (store.set_total ctx id n) id (counted_total n)
    pub success :
        (ctx : Context X) (id saved_id : String)
        → Updates (store.record_item_success ctx id saved_id) id (counted_success saved_id)
    pub failure :
        (ctx : Context X) (id : String)
        → Updates (store.record_item_failure ctx id) id counted_failure
    pub finish : (ctx : Context X) (id : String) → Updates (store.mark_complete ctx id) id completed
    pub give_up :
        (ctx : Context X) (id message : String)
        → Updates (store.mark_failed ctx id message) id (given_up message)

  -- However the operation ends, the one job is as it was, or wholly changed so; a success is a change; and no
  -- other job is touched.
  pub record AppliesWholly (op : Exec (J × X) (Unit {0})) (id : String) (f : ImportJob → ImportJob)
      : Type 0 where
    pub either :
        (j : J) (x : X) (job : ImportJob)
        → view j id ≡ some job
        → (view (op (j, x)).1.0 id ≡ some job) ⊎ (view (op (j, x)).1.0 id ≡ some (f job))
    pub done :
        (j : J) (x : X) (job : ImportJob)
        → (op (j, x)).0 ≡ ok tt
        → view j id ≡ some job
        → view (op (j, x)).1.0 id ≡ some (f job)
    pub apart :
        (j : J) (x : X) (other : String) → id ≢ other → view (op (j, x)).1.0 other ≡ view j other

  pub record IsAllOrNothing (store : ImportStore J X) : Type 0 where
    pub total :
        (ctx : Context X) (id : String) (n : ℕ)
        → AppliesWholly (store.set_total ctx id n) id (counted_total n)
    pub success :
        (ctx : Context X) (id saved_id : String)
        → AppliesWholly (store.record_item_success ctx id saved_id) id (counted_success saved_id)
    pub failure :
        (ctx : Context X) (id : String)
        → AppliesWholly (store.record_item_failure ctx id) id counted_failure
    pub finish :
        (ctx : Context X) (id : String) → AppliesWholly (store.mark_complete ctx id) id completed
    pub give_up :
        (ctx : Context X) (id message : String)
        → AppliesWholly (store.mark_failed ctx id message) id (given_up message)

  -- Under this context the store takes every update of a job whose counters stay within `limit`.
  pub record Accepts (store : ImportStore J X) (ctx : Context X) (limit : ℕ) : Type 0 where
    pub total :
        (id : String) (n : ℕ) (j : J) (x : X)
        → n ≤ limit
        → (store.set_total ctx id n (j, x)).0 ≡ ok tt
    pub success :
        (id saved_id : String) (j : J) (x : X) (job : ImportJob)
        → view j id ≡ some job
        → job.completed_items < limit
        → (store.record_item_success ctx id saved_id (j, x)).0 ≡ ok tt
    pub failure :
        (id : String) (j : J) (x : X) (job : ImportJob)
        → view j id ≡ some job
        → job.failed_items < limit
        → (store.record_item_failure ctx id (j, x)).0 ≡ ok tt
    pub finish : (id : String) (j : J) (x : X) → (store.mark_complete ctx id (j, x)).0 ≡ ok tt
