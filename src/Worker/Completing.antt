-- ===== src/Worker/Completing.antt =====
-- `ProcessJob` (worker.go) once the items are listed, over a store that takes every update.
use google_photos_picker.Base.{
  ℕ, ◌+◌, ◌≤◌, ◌<◌, String, ◌≡◌, ap, ◌∙◌, Option, some, List, [], ◌∷◌, length, arith,
}
use google_photos_picker.Exec.{Result, Context}
use google_photos_picker.System.{System}
use google_photos_picker.OAuth.{Oauth2}
use google_photos_picker.Stores.{ImportJob}
use google_photos_picker.Stores.Progress.{
  ProgressContract, Accepts, counted_total, counted_success, counted_failure, completed,
}
use google_photos_picker.Picker.{MediaItem, Readers}
use google_photos_picker.Client.{World, on_imports}
use google_photos_picker.Worker.{
  Worker, import_one, after_item, import_item, import_items, import_listed,
}
use google_photos_picker.Worker.Counting.{
  CountedOnce, as_success, as_failure, IsAfter, IsAfter-none, IsAfter-success, IsAfter-failure,
  with_items, Outcomes, length-Outcomes,
}
use google_photos_picker.Worker.Importing.{SavedFor, Reached, stopped, recorded, import_one-Reached}

-- The job when the worker is done with it: complete, its total the number of its items, and each item
-- counted as a success under the next of the saved ids, or as a failure.
pub record IsImported {Item : Type 0} (From : Item → String → Type 0) (before : ImportJob)
    (after : Option ImportJob) (items : List Item) : Type 0 where
  pub ids : List String
  pub failures : ℕ
  pub outcomes : Outcomes From items ids failures 0
  pub all : length ids + failures ≡ length items
  pub after_eq :
      after ≡ some (completed (with_items ids failures (counted_total (length items) before)))

module _ {T J X : Type 0} (sys : System X) (lib : Oauth2 X) (readers : Readers) (w : Worker T J X)
    (view : J → String → Option ImportJob) (law : ProgressContract view w.client.imports)
    (ctx : Context X) (limit : ℕ) (takes : Accepts view w.client.imports ctx limit)
    (job : ImportJob) where
  abbrev From : MediaItem → String → Type 0
  From = SavedFor sys lib readers w ctx job.user_id job.id job.metadata

  failure_taken :
      (world : World T J X) (before : ImportJob)
      → view world.imports job.id ≡ some before
      → before.failed_items < limit
      → view (on_imports (w.client.imports.record_item_failure ctx job.id) world).1.imports job.id
        ≡ some (counted_failure before)
  failure_taken world before had room =
      (law.failure ctx job.id).changed world.imports world.env before
        (takes.failure job.id world.imports world.env before had room) had

  import_item-CountedOnce :
      (item : MediaItem) (world : World T J X) (before : ImportJob)
      → view world.imports job.id ≡ some before
      → before.completed_items < limit
      → before.failed_items < limit
      → CountedOnce From item before
          (view (import_item sys lib readers w ctx job item world).1.imports job.id)
  import_item-CountedOnce item world before had room room' =
      go (import_one-Reached sys lib readers w ctx job.user_id job.id item job.metadata world)
    where
      one : Result (Unit {0}) × World T J X
      one = import_one sys lib readers w ctx job.user_id job.id item job.metadata world

      go :
          Reached sys lib readers w ctx job.user_id job.id item job.metadata world
          → CountedOnce From item before
              (view (after_item sys lib readers w ctx job.id one.0 one.1).1.imports job.id)
      go (stopped e bad same) =
          rw bad
            (as_failure (failure_taken one.1 before (ap (λ j. view j job.id) same ∙ had) room'))
      go (recorded saved_id x from result table) =
          let good = takes.success job.id saved_id world.imports x before had room in
          rw (result ∙ good) (
            as_success saved_id from (
              ap (λ j. view j job.id) table
              ∙ (law.success ctx job.id saved_id).changed world.imports x before good had))

  import_items-none-lost :
      (items : List MediaItem) (world : World T J X) (before : ImportJob)
      → view world.imports job.id ≡ some before
      → before.completed_items + length items ≤ limit
      → before.failed_items + length items ≤ limit
      → IsAfter From before
          (view (import_items sys lib readers w ctx job items world).imports job.id)
          items
          0
  unfolding import_items
  import_items-none-lost [] world before had room room' =
      IsAfter-none From before (view world.imports job.id) had
  import_items-none-lost (item ∷ items) world before had room room' =
      let next = (import_item sys lib readers w ctx job item world).1 in
      let final = view (import_items sys lib readers w ctx job items next).imports job.id in
      let less : before.completed_items < limit = omega (arith, room) in
      let less' : before.failed_items < limit = omega (arith, room') in
      elim (import_item-CountedOnce item world before had less less') [
        | as_success saved_id from e ↦
            IsAfter-success From before final item items 0 saved_id from (
              import_items-none-lost items next (counted_success saved_id before) e
                (omega (arith, room)) (omega (arith, room')))
        | as_failure e ↦ IsAfter-failure From before final item items 0 (
            import_items-none-lost items next (counted_failure before) e (omega (arith, room))
              (omega (arith, room')))
      ]

  finished :
      (items : List MediaItem) (world : World T J X) (before : ImportJob)
      → IsAfter From (counted_total (length items) before) (view world.imports job.id) items 0
      → IsImported From before
          (view (on_imports (w.client.imports.mark_complete ctx job.id) world).1.imports job.id)
          items
  finished items world before r =
      let good = takes.finish job.id world.imports world.env in
      record {
        ids = r.ids;
        failures = r.failures;
        outcomes = r.outcomes;
        all = omega (arith, length-Outcomes From items r.ids r.failures 0 r.outcomes);
        after_eq = (law.finish ctx job.id).changed world.imports world.env _ good r.after_eq;
      }

  -- Once the items of a job are listed, over an import store that keeps its contract and takes every
  -- update of counters up to `limit`, a job with room for its items ends complete: its total is their
  -- number, and each of them is counted once, as a failure or as a success whose saved id, in the order of
  -- the items, is what the sink returned for a photo of that item with the job's metadata; whichever items,
  -- downloads or calls of the sink fail.
  pub import_listed-IsImported :
      (items : List MediaItem) (world : World T J X) (before : ImportJob)
      → view world.imports job.id ≡ some before
      → before.completed_items + length items ≤ limit
      → before.failed_items + length items ≤ limit
      → IsImported From before
          (view (import_listed sys lib readers w ctx job items world).imports job.id)
          items
  unfolding import_listed
  import_listed-IsImported items world before had room room' =
      let n = length items in
      let counted = (on_imports (w.client.imports.set_total ctx job.id n) world).1 in
      let set =
        (law.total ctx job.id n).changed world.imports world.env before
          (takes.total job.id n world.imports world.env (omega (arith, room))) had in
      finished items (import_items sys lib readers w ctx job items counted) before
        (import_items-none-lost items counted (counted_total n before) set room room')
