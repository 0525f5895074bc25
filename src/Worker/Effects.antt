-- ===== src/Worker/Effects.antt =====
-- What the worker keeps of the two stores while it processes a job: what the stores' operations for the
-- job's user, and the updates of the job itself, keep.
use google_photos_picker.Base.{
  ℕ, zero, suc, refl, String, ◌≡◌, Option, none, some, List, [], ◌∷◌, length,
}
use google_photos_picker.Errors.{text}
use google_photos_picker.Exec.{Result, ok, err, Context}
use google_photos_picker.Exec.Invariants.{Keeps, OnStore, wrapping-Keeps, bind-Keeps}
use google_photos_picker.System.{System}
use google_photos_picker.StateStore.{StateStore}
use google_photos_picker.OAuth.{Oauth2}
use google_photos_picker.Stores.{ImportJob}
use google_photos_picker.Stores.Keeping.{TokensKeep, JobKeeps, QueueKeeps}
use google_photos_picker.Picker.{MediaItem, Readers, list_session_media_items}
use google_photos_picker.Picker.Effects.{
  download_media_item-Keeps, delete_picker_session-Keeps, list_session_media_items-Keeps,
}
use google_photos_picker.Client.{World, on_tokens, on_imports}
use google_photos_picker.Client.Effects.{
  Kept, on_tokens-Keeps, on_imports-Keeps, on_env-Keeps, access_token-Keeps,
}
use google_photos_picker.Worker.{
  Worker, Processed, authorize, sink_error, import_one, after_item, import_item, import_items,
  import_listed, finish_job, process_job, drain_once, succeeded, unfinished, job_context,
}

module _ {T J X : Type 0} (P : T → Type 0) (Q : J → Type 0) (R : StateStore → Type 0)
    (sys : System X) (lib : Oauth2 X) (readers : Readers) (w : Worker T J X) (job : ImportJob)
    (tokens : TokensKeep P w.client.tokens job.user_id)
    (jobs : JobKeeps Q w.client.imports job.id) where
  module _ (ctx : Context X) where
    authorize-Keeps : Keeps (OnStore P) (authorize sys lib readers w ctx job.user_id)
    authorize-Keeps = access_token-Keeps P Q R sys lib readers w.client job.user_id tokens ctx

    import_one-Keeps :
        (item : MediaItem)
        → Keeps (Kept P Q R) (import_one sys lib readers w ctx job.user_id job.id item job.metadata)
    unfolding import_one
    import_one-Keeps item =
        bind-Keeps (Kept P Q R)
          (on_tokens-Keeps P Q R (
            download_media_item-Keeps P readers w.client.http_client (authorize sys lib readers w)
              ctx job.user_id authorize-Keeps item w.client.download_cap
              w.client.max_decoded_bytes))
          λ photo.
            bind-Keeps (Kept P Q R)
              (wrapping-Keeps (Kept P Q R) (sink_error sys lib readers w) (
                on_env-Keeps P Q R (
                  w.client.sink.save_photo ctx job.user_id job.id
                    (record photo { job_metadata = job.metadata }))))
              λ saved_id. on_imports-Keeps P Q R (jobs.successes ctx saved_id)

    import_item-Kept :
        (item : MediaItem) (world : World T J X)
        → Kept P Q R world
        → Kept P Q R (import_item sys lib readers w ctx job item world).1
    import_item-Kept item world pq =
        let one = import_one sys lib readers w ctx job.user_id job.id item job.metadata world in
        go one.0 one.1 ((import_one-Keeps item).at world pq)
      where
        go :
            (r : Result (Unit {0})) (v : World T J X)
            → Kept P Q R v
            → Kept P Q R (after_item sys lib readers w ctx job.id r v).1
        go (ok _) v kept = kept
        go (err _) v kept = (on_imports-Keeps P Q R (jobs.failures ctx)).at v kept

    import_items-Kept :
        (items : List MediaItem) (world : World T J X)
        → Kept P Q R world
        → Kept P Q R (import_items sys lib readers w ctx job items world)
    unfolding import_items
    import_items-Kept [] world pq = pq
    import_items-Kept (item ∷ items) world pq =
        import_items-Kept items (import_item sys lib readers w ctx job item world).1
          (import_item-Kept item world pq)

    finish_job-Keeps :
        (r : Result (Option (List MediaItem)))
        → Keeps (Kept P Q R) (finish_job sys lib readers w ctx job r)
    unfolding finish_job import_listed
    finish_job-Keeps (err e) = record {
      at = λ v pq. (on_imports-Keeps P Q R (jobs.give_ups ctx (text e))).at v pq;
    }
    finish_job-Keeps (ok none) = record { at = λ v pq. pq }
    finish_job-Keeps (ok (some items)) = record {
      at = λ v pq.
          let counted = (on_imports (w.client.imports.set_total ctx job.id (length items)) v).1 in
          let imported = import_items sys lib readers w ctx job items counted in
          let finished = (on_imports (w.client.imports.mark_complete ctx job.id) imported).1 in
          (on_tokens-Keeps P Q R (
              delete_picker_session-Keeps P readers w.client.http_client
                (authorize sys lib readers w) ctx job.user_id authorize-Keeps job.session_id)).at
            finished
            ((on_imports-Keeps P Q R (jobs.finishes ctx)).at imported (
              import_items-Kept items counted
                ((on_imports-Keeps P Q R (jobs.totals ctx (length items))).at v pq)));
    }

  -- The whole of a job.
  pub process_job-Keeps :
      (pages : ℕ) (ctx : Context X)
      → Keeps (Kept P Q R) (process_job sys lib readers w pages ctx job)
  unfolding process_job
  process_job-Keeps pages ctx = record {
    at = λ world pq.
        let limited = job_context sys lib readers w ctx world in
        let (r, v) =
          on_tokens
            (list_session_media_items readers w.client.http_client (authorize sys lib readers w)
              pages limited job.user_id job.session_id)
            world in
        (finish_job-Keeps limited r).at v (
          (on_tokens-Keeps P Q R (
              list_session_media_items-Keeps P readers w.client.http_client
                (authorize sys lib readers w) limited job.user_id (authorize-Keeps limited) pages
                job.session_id)).at
            world pq);
  }

module _ {T J X : Type 0} (P : T → Type 0) (Q : J → Type 0) (R : StateStore → Type 0)
    (sys : System X) (lib : Oauth2 X) (readers : Readers) (w : Worker T J X)
    (tokens : (user_id : String) → TokensKeep P w.client.tokens user_id)
    (queue : QueueKeeps Q w.client.imports) (pages : ℕ) (ctx : Context X) where
  -- A drain, through all its jobs.
  pub drain_once-Kept :
      (fuel : ℕ) (world : World T J X)
      → Kept P Q R world
      → Kept P Q R (drain_once sys lib readers w fuel pages ctx world).1
  unfolding drain_once
  drain_once-Kept zero world k = k
  drain_once-Kept (suc fuel) world k =
      go (drain_once-Kept fuel) (ctx world.env) refl (claimed world).0 refl
    where
      claimed : World T J X → Result (Option ImportJob) × World T J X
      claimed v = on_imports (w.client.imports.claim_next_pending ctx) v

      after : World T J X
      after = (claimed world).1

      kept : Kept P Q R after
      kept = (on_imports-Keeps P Q R (queue.claims ctx)).at world k

      processed :
          (job : ImportJob) → Kept P Q R (process_job sys lib readers w pages ctx job after).1
      processed job =
          (process_job-Keeps P Q R sys lib readers w job (tokens job.user_id) (queue.jobs job.id)
              pages ctx).at
            after kept

      Next : Type 0
      Next =
          (v : World T J X)
          → Kept P Q R v
          → Kept P Q R (drain_once sys lib readers w fuel pages ctx v).1

      further :
          Next
          → (job : ImportJob) (r : Result Processed)
          → (process_job sys lib readers w pages ctx job after).0 ≡ r
          → ctx world.env ≡ none
          → (claimed world).0 ≡ ok (some job)
          → Kept P Q R (drain_once sys lib readers w (suc fuel) pages ctx world).1
      further next job (ok succeeded) e d f = rw (drain_once, d, f, e) (next _ (processed job))
      further next job (ok unfinished) e d f = rw (drain_once, d, f, e) (processed job)
      further next job (err x) e d f = rw (drain_once, d, f, e) (next _ (processed job))

      go :
          Next
          → (d : Option String) → ctx world.env ≡ d
          → (r : Result (Option ImportJob)) → (claimed world).0 ≡ r
          → Kept P Q R (drain_once sys lib readers w (suc fuel) pages ctx world).1
      go next (some message) e r f = rw (drain_once, e) k
      go next none e (err x) f = rw (drain_once, e, f) kept
      go next none e (ok none) f = rw (drain_once, e, f) kept
      go next none e (ok (some job)) f =
          further next job (process_job sys lib readers w pages ctx job after).0 refl e f
