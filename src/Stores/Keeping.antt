-- ===== src/Stores/Keeping.antt =====
-- What the operations of the two stores of stores.go keep, by the user or the job that they are for.
use google_photos_picker.Base.{ℕ, String, ◌≡◌}
use google_photos_picker.Exec.{Context}
use google_photos_picker.Exec.Invariants.{Keeps, OnStore}
use google_photos_picker.Stores.{TokenRecord, TokenStore, ImportStore, Metadata}

-- A save of tokens for the user keeps P.
abbrev pub SavesKeep : {T X : Type 0} → (T → Type 0) → TokenStore T X → String → Type 0
SavesKeep {X = X} P store user_id =
    (ctx : Context X) (rec : TokenRecord)
    → rec.user_id ≡ user_id
    → Keeps (OnStore P) (store.save ctx rec)

-- Every other operation on the tokens of the user keeps P.
pub record TokensKeep {T X : Type 0} (P : T → Type 0) (store : TokenStore T X) (user_id : String)
    : Type 0 where
  pub loads : (ctx : Context X) → Keeps (OnStore P) (store.load ctx user_id)
  pub updates :
      (ctx : Context X) (access : String) (expiry : ℕ)
      → Keeps (OnStore P) (store.update_access ctx user_id access expiry)
  pub statuses : (ctx : Context X) → Keeps (OnStore P) (store.status ctx user_id)
  pub deletes : (ctx : Context X) → Keeps (OnStore P) (store.delete ctx user_id)

-- Every operation that the user asks of the queue keeps Q.
pub record ImportsKeep {J X : Type 0} (Q : J → Type 0) (store : ImportStore J X) (user_id : String)
    : Type 0 where
  pub creates :
      (ctx : Context X) (session_id : String) (meta : Metadata)
      → Keeps (OnStore Q) (store.create_job ctx user_id session_id meta)
  pub gets : (ctx : Context X) (id : String) → Keeps (OnStore Q) (store.get ctx user_id id)

-- Every update that the worker makes of the job keeps Q.
pub record JobKeeps {J X : Type 0} (Q : J → Type 0) (store : ImportStore J X) (id : String)
    : Type 0 where
  pub totals : (ctx : Context X) (n : ℕ) → Keeps (OnStore Q) (store.set_total ctx id n)
  pub successes :
      (ctx : Context X) (saved_id : String)
      → Keeps (OnStore Q) (store.record_item_success ctx id saved_id)
  pub failures : (ctx : Context X) → Keeps (OnStore Q) (store.record_item_failure ctx id)
  pub finishes : (ctx : Context X) → Keeps (OnStore Q) (store.mark_complete ctx id)
  pub give_ups :
      (ctx : Context X) (message : String) → Keeps (OnStore Q) (store.mark_failed ctx id message)

-- Every update of a job by a worker, and every claim, keeps Q.
pub record QueueKeeps {J X : Type 0} (Q : J → Type 0) (store : ImportStore J X) : Type 0 where
  pub claims : (ctx : Context X) → Keeps (OnStore Q) (store.claim_next_pending ctx)
  pub jobs : (id : String) → JobKeeps Q store id
