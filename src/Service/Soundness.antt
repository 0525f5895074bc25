-- ===== src/Service/Soundness.antt =====
-- The invariants of the three stores, together, in a server that runs on.
use google_photos_picker.Base.{ℤ, ℕ, String, ◌≡◌, sym, subst, List, [], ◌∷◌, Option}
use google_photos_picker.Exec.{Result}
use google_photos_picker.System.{System}
use google_photos_picker.OAuth.{Oauth2}
use google_photos_picker.Cryptobox.{Box}
use google_photos_picker.Cryptobox.RoundTrip.{IsAead, FillsBuffer}
use google_photos_picker.StateStore.Lookup.{
  IsValid as StatesAreValid, consume-IsValid, put_state-IsValid, gc_tick-IsValid, close-IsValid,
}
use google_photos_picker.Stores.{TokenRecord, TokenStore}
use google_photos_picker.Stores.Contract.{
  SaveContract, UpdateContract, ReadContract, DeleteContract,
}
use google_photos_picker.Stores.Keeping.{TokensKeep, SavesKeep, ImportsKeep, QueueKeeps}
use google_photos_picker.Picker.{Readers}
use google_photos_picker.Client.{World}
use google_photos_picker.Handlers.{Handlers}
use google_photos_picker.Postgres.Database.{Database}
use google_photos_picker.Postgres.Tokens.{TokenTable, pg_token_store}
use google_photos_picker.Postgres.Tokens.View.{view, IsValid}
use google_photos_picker.Postgres.Tokens.Saving.{kept}
use google_photos_picker.Postgres.Tokens.Contract.{read-ReadContract, delete-DeleteContract}
use google_photos_picker.Postgres.Tokens.Keeping.{save-SaveContract}
use google_photos_picker.Postgres.Tokens.Updating.{update-UpdateContract}
use google_photos_picker.Postgres.Imports.{ImportTable, pg_import_store}
use google_photos_picker.Postgres.Imports.Rows.{Stmt}
use google_photos_picker.Postgres.Imports.Lifecycle.{IsConsistent, after-IsConsistent}
use google_photos_picker.Postgres.Imports.Effects.{all-ImportsKeep, pg_import_store-QueueKeeps}
use google_photos_picker.Service.{
  Event, served, called_back, drained, called, swept, revoked, closed, elapsed, run,
}
use google_photos_picker.Service.Keeping.{StatesKeep, IssueWell, run-Kept}

module _ {T X : Type 0} (ts : TokenStore T X) (Valid : T → Type 0)
    (seen : T → String → Option (Result TokenRecord)) (at : ℕ → ℕ)
    (saves : SaveContract ts Valid seen at) (updates : UpdateContract ts Valid seen at)
    (reads : ReadContract ts Valid seen at) (deletes : DeleteContract ts Valid seen at) where
  -- A token store that keeps its contract keeps the validity of its state.
  contract-TokensKeep : (user_id : String) → TokensKeep Valid ts user_id
  contract-TokensKeep user_id = record {
    loads =
        λ ctx. record { at = λ w v. subst Valid (sym (reads.load_state ctx user_id w.0 w.1)) v };
    updates = λ ctx access expiry. record {
      at = λ w v. updates.valid ctx user_id access expiry w.0 w.1 v;
    };
    statuses =
        λ ctx. record { at = λ w v. subst Valid (sym (reads.status_state ctx user_id w.0 w.1)) v };
    deletes = λ ctx. record { at = λ w v. deletes.valid ctx user_id w.0 w.1 v };
  }

  contract-SavesKeep : (user_id : String) → SavesKeep Valid ts user_id
  contract-SavesKeep user_id ctx rec own = record { at = λ w v. saves.valid ctx rec w.0 w.1 v }

states_valid : StatesKeep StatesAreValid
states_valid = record {
  consumes = λ state now s v. consume-IsValid state now s v;
  sweeps = λ b now s v. gc_tick-IsValid now s b v;
  closes = λ s v. close-IsValid 0 s v;
}

-- Every state is listed once; both columns of every row of tokens open with the store's key; and the
-- jobs are counted as their rows say.
pub record IsSound {X : Type 0} (box : Box) (w : World TokenTable ImportTable X) : Type 0 where
  pub states : StatesAreValid w.states
  pub tokens : IsValid box w.tokens
  pub imports : IsConsistent w.imports

module _ {X : Type 0} (sys : System X) (lib : Oauth2 X) (readers : Readers) (db : Database X)
    (box : Box) (h : Handlers TokenTable ImportTable X) (poll_interval job_timeout : ℤ) where
  issue_valid :
      (es : List (Event sys lib readers h poll_interval job_timeout))
      → IssueWell StatesAreValid sys lib readers h poll_interval job_timeout es
  issue_valid [] = tt
  issue_valid (served op r ∷ es) = (
    (λ other known same state now s v. put_state-IsValid state other now now s v),
    issue_valid es,
  )
  issue_valid (called_back r ∷ es) = (tt, issue_valid es)
  issue_valid (drained jobs pages ctx ∷ es) = (tt, issue_valid es)
  issue_valid (called c ∷ es) = (tt, issue_valid es)
  issue_valid (swept b ∷ es) = (tt, issue_valid es)
  issue_valid (revoked ∷ es) = (tt, issue_valid es)
  issue_valid (closed ∷ es) = (tt, issue_valid es)
  issue_valid (elapsed f ∷ es) = (tt, issue_valid es)

  -- Over PostgreSQL, an authenticated cipher and a random source that fills its buffers, a sound server
  -- stays sound through any sequence of requests, callbacks, ticks and single calls of workers, ticks of
  -- the sweeper, revocations and a shutdown, whatever they ask for, and whatever the network, the database
  -- and time do.
  pub run-IsSound :
      IsAead box.aead
      → FillsBuffer sys
      → h.client.tokens ≡ pg_token_store sys db box
      → h.client.imports ≡ pg_import_store db
      → (es : List (Event sys lib readers h poll_interval job_timeout))
        (w : World TokenTable ImportTable X)
      → IsSound box w
      → IsSound box (run sys lib readers h poll_interval job_timeout es w)
  run-IsSound law fills stored queued es w sound =
      let saves = save-SaveContract sys db box law fills in
      let updates = update-UpdateContract sys db box law fills in
      let reads = read-ReadContract sys db box in
      let deletes = delete-DeleteContract sys db box in
      let keep = λ (s : Stmt) (now : ℕ) (j : ImportTable) (k : IsConsistent j).
        after-IsConsistent now j k s in
      let (t, j, s) =
        run-Kept (IsValid box) IsConsistent StatesAreValid sys lib readers h poll_interval
          job_timeout
          (λ u.
            subst (λ ts. TokensKeep (IsValid box) ts u) (sym stored)
              (contract-TokensKeep (pg_token_store sys db box) (IsValid box) (view box)
                (kept sys db box) saves updates reads deletes u))
          (λ u.
            subst (λ q. ImportsKeep IsConsistent q u) (sym queued)
              (all-ImportsKeep IsConsistent db keep u))
          (subst (λ q. QueueKeeps IsConsistent q) (sym queued)
            (pg_import_store-QueueKeeps IsConsistent db keep))
          states_valid
          (λ state u now s v f.
            subst (λ ts. SavesKeep (IsValid box) ts u) (sym stored)
              (contract-SavesKeep (pg_token_store sys db box) (IsValid box) (view box)
                (kept sys db box) saves updates reads deletes u))
          es w (issue_valid es) (sound.tokens, sound.imports, sound.states) in
      record { states = s; tokens = t; imports = j }
