-- ===== src/Worker/Draining.antt =====
-- `DrainOnce` (worker.go) and the number of jobs that wait.
use google_photos_picker.Base.{
  ℕ, zero, suc, ◌<◌, String, ◌≡◌, ◌≢◌, refl, sym, subst, Option, none, some, List, [], ◌∷◌, length,
  Option-cases, inl, inr, arith,
}
use google_photos_picker.Errors.{text}
use google_photos_picker.Exec.{Result, ok, err, Context, Result-cases}
use google_photos_picker.System.{System}
use google_photos_picker.OAuth.{Oauth2}
use google_photos_picker.Stores.{ImportJob, ImportStore}
use google_photos_picker.Picker.{MediaItem, Readers}
use google_photos_picker.Picker.Ending.{TakesTime, list_session_media_items_ends}
use google_photos_picker.Client.{World, on_imports}
use google_photos_picker.Worker.{
  remaining, Worker, out_of_fuel, succeeded, unfinished, authorize, import_one, after_item,
  import_item, import_items, import_listed, finish_job, process_job, drain_once, job_context,
}
use google_photos_picker.Worker.Importing.{Reached, stopped, recorded, import_one-Reached}

-- `Within n j` says that no more than n jobs wait in j. None of the worker's updates makes it false, and
-- a claim that returns a job makes it one less.
pub record NeverRequeues {J X : Type 0} (Within : ℕ → J → Type 0) (store : ImportStore J X)
    : Type 0 where
  pub total :
      (ctx : Context X) (id : String) (items n : ℕ) (j : J) (x : X)
      → Within n j
      → Within n (store.set_total ctx id items (j, x)).1.0
  pub success :
      (ctx : Context X) (id saved_id : String) (n : ℕ) (j : J) (x : X)
      → Within n j
      → Within n (store.record_item_success ctx id saved_id (j, x)).1.0
  pub failure :
      (ctx : Context X) (id : String) (n : ℕ) (j : J) (x : X)
      → Within n j
      → Within n (store.record_item_failure ctx id (j, x)).1.0
  pub finish :
      (ctx : Context X) (id : String) (n : ℕ) (j : J) (x : X)
      → Within n j
      → Within n (store.mark_complete ctx id (j, x)).1.0
  pub give_up :
      (ctx : Context X) (id message : String) (n : ℕ) (j : J) (x : X)
      → Within n j
      → Within n (store.mark_failed ctx id message (j, x)).1.0
  pub claim :
      (ctx : Context X) (job : ImportJob) (n : ℕ) (j : J) (x : X)
      → Within n j
      → (store.claim_next_pending ctx (j, x)).0 ≡ ok (some job)
      → (fewer : ℕ) × (fewer < n) × Within fewer (store.claim_next_pending ctx (j, x)).1.0

module _ {T J X : Type 0} (sys : System X) (lib : Oauth2 X) (readers : Readers) (w : Worker T J X)
    (Within : ℕ → J → Type 0) (law : NeverRequeues Within w.client.imports) where
  import_item-Within :
      (ctx : Context X) (job : ImportJob) (item : MediaItem) (n : ℕ) (world : World T J X)
      → Within n world.imports
      → Within n (import_item sys lib readers w ctx job item world).1.imports
  import_item-Within ctx job item n world few =
      go (import_one-Reached sys lib readers w ctx job.user_id job.id item job.metadata world)
    where
      one : Result (Unit {0}) × World T J X
      one = import_one sys lib readers w ctx job.user_id job.id item job.metadata world

      after_item-Within :
          (r : Result (Unit {0})) (v : World T J X)
          → Within n v.imports
          → Within n (after_item sys lib readers w ctx job.id r v).1.imports
      after_item-Within (ok _) v h = h
      after_item-Within (err _) v h = law.failure ctx job.id n v.imports v.env h

      go :
          Reached sys lib readers w ctx job.user_id job.id item job.metadata world
          → Within n (after_item sys lib readers w ctx job.id one.0 one.1).1.imports
      go (stopped e bad same) = after_item-Within one.0 one.1 (subst (Within n) (sym same) few)
      go (recorded saved_id x from result table) =
          after_item-Within one.0 one.1
            (subst (Within n) (sym table) (law.success ctx job.id saved_id n world.imports x few))

  import_items-Within :
      (ctx : Context X) (job : ImportJob) (items : List MediaItem) (n : ℕ) (world : World T J X)
      → Within n world.imports
      → Within n (import_items sys lib readers w ctx job items world).imports
  unfolding import_items
  import_items-Within ctx job [] n world few = few
  import_items-Within ctx job (item ∷ items) n world few =
      import_items-Within ctx job items n (import_item sys lib readers w ctx job item world).1
        (import_item-Within ctx job item n world few)

  finish_job-Within :
      (ctx : Context X) (job : ImportJob) (r : Result (Option (List MediaItem))) (n : ℕ)
      (world : World T J X)
      → Within n world.imports
      → Within n (finish_job sys lib readers w ctx job r world).1.imports
  unfolding finish_job import_listed
  finish_job-Within ctx job (err e) n world few =
      law.give_up ctx job.id (text e) n world.imports world.env few
  finish_job-Within ctx job (ok none) n world few = few
  finish_job-Within ctx job (ok (some items)) n world few =
      let counted = (on_imports (w.client.imports.set_total ctx job.id (length items)) world).1 in
      let imported = import_items sys lib readers w ctx job items counted in
      law.finish ctx job.id n imported.imports imported.env (
        import_items-Within ctx job items n counted
          (law.total ctx job.id (length items) n world.imports world.env few))

  process_job-Within :
      (pages : ℕ) (ctx : Context X) (job : ImportJob) (n : ℕ) (world : World T J X)
      → Within n world.imports
      → Within n (process_job sys lib readers w pages ctx job world).1.imports
  unfolding process_job
  process_job-Within pages ctx job n world few = finish_job-Within _ job _ n _ few

  module _ (time : TakesTime sys w.client.http_client (authorize sys lib readers w)) (pages : ℕ)
      (enough : remaining w.job_timeout < pages) (ctx : Context X) where
    finish_job_finishes :
        (job : ImportJob) (c : Context X) (r : Result (Option (List MediaItem)))
        (world : World T J X)
        → r ≢ ok none
        → (finish_job sys lib readers w c job r world).0 ≢ ok unfinished
    unfolding finish_job
    finish_job_finishes job c (err e) world h g = ground arith
    finish_job_finishes job c (ok none) world h g = h refl
    finish_job_finishes job c (ok (some items)) world h g = ground arith

    process_job_finishes :
        (job : ImportJob) (world : World T J X)
        → (process_job sys lib readers w pages ctx job world).0 ≢ ok unfinished
    unfolding process_job
    process_job_finishes job world =
        finish_job_finishes job (job_context sys lib readers w ctx world) _ _ (
          list_session_media_items_ends sys readers w.client.http_client
            (authorize sys lib readers w) time ctx (sys.now world.env) (remaining w.job_timeout)
            job.user_id job.session_id pages (world.tokens, world.env) (omega (arith, enough))
            (omega (arith, enough)))

    claimed : World T J X → Result (Option ImportJob) × World T J X
    claimed world = on_imports (w.client.imports.claim_next_pending ctx) world

    -- Where each request takes time and fails under a context that is done, over an import store whose
    -- updates put no job back: from a store in which at most n jobs wait, with more fuel for jobs than n,
    -- and more fuel for pages than the timeout of a job has nanoseconds, a drain ends by itself: for its
    -- context, an error of the queue, or an empty queue.
    pub drain_once_ends :
        (fuel n : ℕ) (world : World T J X)
        → Within n world.imports
        → n < fuel
        → (drain_once sys lib readers w fuel pages ctx world).0 ≢ out_of_fuel
    unfolding drain_once claimed
    drain_once_ends zero n world few h = absurd (omega arith)
    drain_once_ends (suc fuel) n world few h = elim (Option-cases (ctx world.env)) [
      | inr (t, done) ↦ ground arith
      | inl live ↦ elim (Result-cases (claimed world).0) [
        | inr (e, failed) ↦ ground arith
        | inl (none, empty) ↦ ground arith
        | inl (some job, found) ↦
            let (m, less, fewer) = law.claim ctx job n world.imports world.env few found in
            let next = (claimed world).1 in
            let ran = process_job sys lib readers w pages ctx job next in
            let kept = process_job-Within pages ctx job m next fewer in
            elim (Result-cases ran.0) [
              | inr (e, bad) ↦
                  λ out. drain_once_ends fuel m ran.1 kept (omega (arith, less, h)) (ground arith)
              | inl (succeeded, good) ↦
                  λ out. drain_once_ends fuel m ran.1 kept (omega (arith, less, h)) (ground arith)
              | inl (unfinished, short) ↦ λ out. process_job_finishes job next short
            ]
      ]
    ]
