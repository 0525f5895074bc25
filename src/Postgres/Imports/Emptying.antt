-- ===== src/Postgres/Imports/Emptying.antt =====
-- A drain over the queue in PostgreSQL that found nothing left.
use google_photos_picker.Base.{
  ℕ, String, ◌≡◌, sym, subst, ap, ◌∙◌, true, Option, none, some, lookup, refl, arith,
}
use google_photos_picker.Exec.{ok, Context}
use google_photos_picker.Exec.Inversion.{ok≢err}
use google_photos_picker.System.{System}
use google_photos_picker.OAuth.{Oauth2}
use google_photos_picker.Stores.{ImportStore, pending}
use google_photos_picker.Picker.{Readers}
use google_photos_picker.Client.{World}
use google_photos_picker.Worker.{Worker, empty, drain_once}
use google_photos_picker.Worker.Emptying.{drain_once-LastClaim}
use google_photos_picker.Postgres.Database.{Database, statement, answered}
use google_photos_picker.Postgres.Imports.{
  ImportRow, ImportTable, claim_row, claim_next_pending, pg_import_store,
}
use google_photos_picker.Postgres.Imports.Claim.{claim_row-none}

module _ {X : Type 0} (db : Database X) where
  -- At this instant no job of the table is pending, but those whose rows others hold locked.
  pub record NothingFree (at : X) (j : ImportTable) : Type 0 where
    pub held :
        (id : String) (row : ImportRow)
        → lookup id j ≡ some row
        → row.status ≡ pending
        → db.locked at id ≡ true

  claim_row-NothingFree :
      (y : X) (j : ImportTable)
      → (claim_row (db.locked y) (db.now y) j).0 ≡ ok none
      → NothingFree y (claim_row (db.locked y) (db.now y) j).1
  claim_row-NothingFree y j h =
      let (same, none_free) = claim_row-none (db.locked y) (db.now y) j h in
      record {
        held = λ id row f waits.
            let free = none_free id row (ap (lookup id) (sym same) ∙ f) in
            ground (arith, free, waits);
      }

  -- The claim is made at the instant at which it ends.
  claim_next_pending-NothingFree :
      (ctx : Context X) (j : ImportTable) (x : X)
      → (claim_next_pending db ctx (j, x)).0 ≡ ok none
      → NothingFree (claim_next_pending db ctx (j, x)).1.1 (claim_next_pending db ctx (j, x)).1.0
  unfolding claim_next_pending statement
  claim_next_pending-NothingFree ctx j x = go (ctx x) refl (db.round_trip x).0 refl
    where
      y : X
      y = (db.round_trip x).1

      Found : Type 0
      Found =
          (claim_next_pending db ctx (j, x)).0 ≡ ok none
          → NothingFree (claim_next_pending db ctx (j, x)).1.1
              (claim_next_pending db ctx (j, x)).1.0

      heard :
          (l : Option String)
          → answered l (claim_row (db.locked y) (db.now y) j).0 ≡ ok none
          → NothingFree y (claim_row (db.locked y) (db.now y) j).1
      heard (some text) h = absurd (ok≢err (sym h))
      heard none h = claim_row-NothingFree y j h

      go : (c : Option String) → ctx x ≡ c → (r : Option String) → (db.round_trip x).0 ≡ r → Found
      go (some text) e r f = rw (claim_next_pending, statement, e) (λ h. absurd (ok≢err (sym h)))
      go none e (some text) f =
          rw (claim_next_pending, statement, e, f) (λ h. absurd (ok≢err (sym h)))
      go none e none f = rw (claim_next_pending, statement, e, f) (heard (db.lost_answer y))

  -- A drain that ends because the queue is empty leaves no pending job in the table, but for those whose rows
  -- other transactions hold locked at the instant at which it ends, when its last claim was made.
  pub drain_once-NothingFree :
      {T : Type 0} (sys : System X) (lib : Oauth2 X) (readers : Readers)
      (w : Worker T ImportTable X)
      → w.client.imports ≡ pg_import_store db
      → (pages : ℕ) (ctx : Context X) (fuel : ℕ) (world : World T ImportTable X)
      → (drain_once sys lib readers w fuel pages ctx world).0 ≡ empty
      → NothingFree
          (drain_once sys lib readers w fuel pages ctx world).1.env
          (drain_once sys lib readers w fuel pages ctx world).1.imports
  drain_once-NothingFree {T = T} sys lib readers w queued pages ctx fuel world h =
      let c = drain_once-LastClaim sys lib readers w pages ctx fuel world h in
      subst (λ (v : World T ImportTable X). NothingFree v.env v.imports) (sym c.last)
        (claims w.client.imports queued c.before.imports c.before.env c.nothing)
    where
      claims :
          (store : ImportStore ImportTable X)
          → store ≡ pg_import_store db
          → (j : ImportTable) (x : X) → (store.claim_next_pending ctx (j, x)).0 ≡ ok none
          → NothingFree
              (store.claim_next_pending ctx (j, x)).1.1
              (store.claim_next_pending ctx (j, x)).1.0
      claims store e j x = rw e (claim_next_pending-NothingFree ctx j x)
