-- ===== src/Worker/Importing.antt =====
-- The loop over the items of a job in `ProcessJob` (worker.go), over any import store that keeps its contract.
use google_photos_picker.Base.{
  ℕ, suc, String, ◌≡◌, ap, ◌∙◌, Option, some, List, [], ◌∷◌, inl, inr, ◌⊎◌, arith,
}
use google_photos_picker.Errors.{Error, wrap}
use google_photos_picker.Exec.{Result, ok, err, Context, Result-cases}
use google_photos_picker.System.{System}
use google_photos_picker.OAuth.{Oauth2}
use google_photos_picker.Stores.{ImportJob, Metadata}
use google_photos_picker.Stores.Progress.{ProgressContract, counted_success, counted_failure}
use google_photos_picker.Picker.{MediaItem, Readers, photo_of, download_media_item}
use google_photos_picker.Picker.Provenance.{download_media_item-photo_of}
use google_photos_picker.Sink.{DownloadedPhoto}
use google_photos_picker.Client.{World, on_imports}
use google_photos_picker.Worker.Counting.{
  CountedOnce, as_success, as_failure, IsAfter, IsAfter-none, IsAfter-success, IsAfter-failure,
  IsAfter-lost,
}
use google_photos_picker.Worker.{
  Worker, authorize, import_one, after_item, import_item, import_items,
}

module _ {T J X : Type 0} (sys : System X) (lib : Oauth2 X) (readers : Readers)
    (w : Worker T J X) where
  -- The id is what the sink returned for a photo of the item, with the metadata of the job.
  pub record SavedFor (ctx : Context X) (user_id id : String) (meta : Metadata) (item : MediaItem)
      (saved_id : String) : Type 0 where
    pub bytes : List ℕ
    pub env : X
    pub given :
        (w.client.sink.save_photo ctx user_id id
          (record (photo_of item bytes) { job_metadata = meta })
          env).0
        ≡ ok saved_id

  -- `importOne` got as far as its last step, with the id that the sink gave; or it failed before, and has
  -- not touched the import store.
  pub data Reached (ctx : Context X) (user_id id : String) (item : MediaItem) (meta : Metadata)
      (world : World T J X) : Type 0 where
    stopped :
        (e : Error)
        → (import_one sys lib readers w ctx user_id id item meta world).0 ≡ err e
        → (import_one sys lib readers w ctx user_id id item meta world).1.imports ≡ world.imports
        → Reached ctx user_id id item meta world
    recorded :
        (saved_id : String) (x : X)
        → SavedFor ctx user_id id meta item saved_id
        → (import_one sys lib readers w ctx user_id id item meta world).0
          ≡ (w.client.imports.record_item_success ctx id saved_id (world.imports, x)).0
        → (import_one sys lib readers w ctx user_id id item meta world).1.imports
          ≡ (w.client.imports.record_item_success ctx id saved_id (world.imports, x)).1.0
        → Reached ctx user_id id item meta world

  pub import_one-Reached :
      (ctx : Context X) (user_id id : String) (item : MediaItem) (meta : Metadata)
      (world : World T J X)
      → Reached ctx user_id id item meta world
  unfolding import_one
  import_one-Reached ctx user_id id item meta world =
      let loaded =
        download_media_item readers w.client.http_client (authorize sys lib readers w) ctx user_id
          item w.client.download_cap w.client.max_decoded_bytes (world.tokens, world.env) in
      elim (Result-cases loaded.0) [
        | inr (e, failed) ↦ stopped e (ground arith) (ground arith)
        | inl (photo, arrived) ↦
            let kept =
              w.client.sink.save_photo ctx user_id id (record photo { job_metadata = meta })
                loaded.1.1 in
            elim (Result-cases kept.0) [
              | inr (e, failed) ↦ stopped (wrap "sink" e) (ground arith) (ground arith)
              | inl (saved_id, stored) ↦
                  let (bytes, same) =
                    download_media_item-photo_of readers w.client.http_client
                      (authorize sys lib readers w) ctx user_id item w.client.download_cap
                      w.client.max_decoded_bytes (world.tokens, world.env) photo arrived in
                  recorded saved_id kept.1
                    (record {
                      bytes = bytes;
                      env = loaded.1.1;
                      given =
                          ap
                            (λ (p : DownloadedPhoto).
                              (w.client.sink.save_photo ctx user_id id
                                (record p { job_metadata = meta }) loaded.1.1).0)
                            same
                          ∙ stored;
                    })
                    (ground arith) (ground arith)
            ]
      ]

  module _ (view : J → String → Option ImportJob) (law : ProgressContract view w.client.imports)
      (ctx : Context X) (job : ImportJob) where
    -- Counted, or (where the store fails too) not at all.
    abbrev pub From : MediaItem → String → Type 0
    From = SavedFor ctx job.user_id job.id job.metadata

    abbrev Counted : MediaItem → ImportJob → Option ImportJob → Type 0
    Counted item before after = CountedOnce From item before after ⊎ (after ≡ some before)

    failure-Counted :
        (item : MediaItem) (world : World T J X) (before : ImportJob)
        → view world.imports job.id ≡ some before
        → Counted item before (
            view
              (on_imports (w.client.imports.record_item_failure ctx job.id) world).1.imports
              job.id)
    failure-Counted item world before had =
        let out = w.client.imports.record_item_failure ctx job.id (world.imports, world.env) in
        elim (Result-cases out.0) [
          | inl (tt, good) ↦ inl (
              as_failure ((law.failure ctx job.id).changed world.imports world.env before good had))
          | inr (e, bad) ↦ inr (
              ap (λ j. view j job.id) ((law.failure ctx job.id).kept world.imports world.env e bad)
              ∙ had)
        ]

    import_item-Counted :
        (item : MediaItem) (world : World T J X) (before : ImportJob)
        → view world.imports job.id ≡ some before
        → Counted item before
            (view (import_item sys lib readers w ctx job item world).1.imports job.id)
    import_item-Counted item world before had =
        go (import_one-Reached ctx job.user_id job.id item job.metadata world)
      where
        one : Result (Unit {0}) × World T J X
        one = import_one sys lib readers w ctx job.user_id job.id item job.metadata world

        go :
            Reached ctx job.user_id job.id item job.metadata world
            → Counted item before
                (view (after_item sys lib readers w ctx job.id one.0 one.1).1.imports job.id)
        go (stopped e bad same) =
            rw bad (failure-Counted item one.1 before (ap (λ j. view j job.id) same ∙ had))
        go (recorded saved_id x from result table) =
            let out = w.client.imports.record_item_success ctx job.id saved_id (world.imports, x) in
            elim (Result-cases out.0) [
              | inl (tt, good) ↦ rw (result ∙ good) (
                  inl (
                    as_success saved_id from (
                      ap (λ j. view j job.id) table
                      ∙ (law.success ctx job.id saved_id).changed world.imports x before good had)))
              | inr (e, bad) ↦ rw (result ∙ bad) (
                  failure-Counted item one.1 before (
                    ap (λ j. view j job.id)
                      (table ∙ (law.success ctx job.id saved_id).kept world.imports x e bad)
                    ∙ had))
            ]

    -- Over an import store that keeps its contract: through the items of a job, whatever fails (the
    -- network, an item, the sink, the store), each item is counted once at most, as a failure or as
    -- a success whose saved id, in the order of the items, is what the sink returned for a photo of that item
    -- with the job's metadata; the rest of the job is as it was.
    pub import_items-IsAfter :
        (items : List MediaItem) (world : World T J X) (before : ImportJob)
        → view world.imports job.id ≡ some before
        → (lost : ℕ) × IsAfter From before
            (view (import_items sys lib readers w ctx job items world).imports job.id)
            items
            lost
    unfolding import_items
    import_items-IsAfter [] world before had =
        (0, IsAfter-none From before (view world.imports job.id) had)
    import_items-IsAfter (item ∷ items) world before had =
        let next = (import_item sys lib readers w ctx job item world).1 in
        let final = view (import_items sys lib readers w ctx job items next).imports job.id in
        elim (import_item-Counted item world before had) [
          | inl (as_success saved_id from e) ↦
              let (lost, r) = import_items-IsAfter items next (counted_success saved_id before) e in
              (lost, IsAfter-success From before final item items lost saved_id from r)
          | inl (as_failure e) ↦
              let (lost, r) = import_items-IsAfter items next (counted_failure before) e in
              (lost, IsAfter-failure From before final item items lost r)
          | inr e ↦
              let (lost, r) = import_items-IsAfter items next before e in
              (suc lost, IsAfter-lost From before final item items lost r)
        ]
