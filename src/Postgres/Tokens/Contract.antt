-- ===== src/Postgres/Tokens/Contract.antt =====
-- The token store (postgres/tokens.go) against what stores.go asks of a `TokenStore`, seen through `view`.
use google_photos_picker.Base.{
  String, ◌≡◌, ◌≢◌, refl, sym, subst, inl, inr, none, some, lookup, erase, arith, Option-cases,
}
use google_photos_picker.Errors.{Error, other as other_error, sentinel, no_tokens}
use google_photos_picker.Exec.{Result, ok, err, Context}
use google_photos_picker.System.{System}
use google_photos_picker.Cryptobox.{Box}
use google_photos_picker.Cryptobox.RoundTrip.{IsAead, FillsBuffer}
use google_photos_picker.Stores.{TokenRecord, TokenStatus}
use google_photos_picker.Stores.Contract.{ReadContract, DeleteContract, TokenContract}
use google_photos_picker.Postgres.Database.{
  Database, Answers, Ran, Ran-ok, Ran-answered, heard_all, answer_lost, statement_rule,
}
use google_photos_picker.Postgres.Tokens.{
  TokenRow, TokenTable, load, opened, delete_row, decrypt_row, status, delete, pg_token_store,
}
use google_photos_picker.Postgres.Tokens.View.{
  view, decrypt_row_scopes, record_of, IsSealed, IsValid, erase-IsValid, view-IsSealed,
  view-erase_self, view-erase_ne,
}
use google_photos_picker.Postgres.Tokens.Saving.{kept}
use google_photos_picker.Postgres.Tokens.Keeping.{save-SaveContract, save_failed}
use google_photos_picker.Postgres.Tokens.Updating.{update-UpdateContract, update_failed}

module _ {X : Type 0} (sys : System X) (db : Database X) (box : Box) where
  shown :
      (ctx : Context X) (user : String) (st : TokenStatus) (rec : TokenRecord) (t : TokenTable)
      (x : X)
      → (status db box ctx user (t, x)).0 ≡ ok st
      → view box t user ≡ some (ok rec)
      → st.scopes ≡ rec.scopes
  unfolding status view
  shown ctx user st rec t x h v = elim (Option-cases (lookup user t)) [
    | inl missing ↦ absurd (ground arith)
    | inr (row, found) ↦
        let opens : decrypt_row box user row ≡ ok rec = ground arith in
        ground (arith, decrypt_row_scopes box user row rec opens)
  ]

  -- The two reads keep theirs.
  pub read-ReadContract :
      ReadContract (pg_token_store sys db box) (IsValid box) (view box) (kept sys db box)
  unfolding load status view
  read-ReadContract = record {
    load_state = λ ctx user t x. ground arith;
    status_state = λ ctx user t x. ground arith;
    loaded = λ ctx user rec t x h. ground arith;
    connected = λ ctx user st t x h. ground arith;
    scopes = λ ctx user st rec t x h v. shown ctx user st rec t x h v;
    no_scopes = λ ctx user st t x h v. ground arith;
  }

  -- Every way for `Delete` to end on a table whose rows are all sealed.
  data Deleted (user : String) (t : TokenTable) (r : Result String) (t' : TokenTable) : Type 0 where
    kept_all : (e : Error) → r ≡ err e → t' ≡ t → Deleted user t r t'
    erased :
        (row : TokenRow) (s : IsSealed box row)
        → lookup user t ≡ some row
        → r ≡ ok s.refresh
        → t' ≡ erase user t
        → Deleted user t r t'

  delete_row-Deleted :
      (user : String) (t : TokenTable)
      → IsValid box t
      → let w = delete_row user t in Deleted user t (opened db box w.0) w.1
  delete_row-Deleted user t v = elim (Option-cases (lookup user t)) [
    | inl missing ↦ kept_all (sentinel no_tokens) (ground arith) (ground arith)
    | inr (row, found) ↦
        erased row (v.sealed user row found) found
          (ground (arith, (v.sealed user row found).refresh_opens)) (ground arith)
  ]

  delete-Deleted :
      (ctx : Context X) (user : String) (t : TokenTable) (x : X)
      → IsValid box t
      → let w = delete db box ctx user (t, x) in Ran db (Deleted user t) w.0 w.1.0
  unfolding delete
  delete-Deleted ctx user t x v =
      statement_rule (λ r t'. Ran db (Deleted user t) (opened db box r) t') db ctx
        (λ y. delete_row user) t x (λ text. heard_all (kept_all (other_error text) refl refl))
        (λ y. heard_all (delete_row-Deleted user t v))
        (λ text y e.
          answer_lost (opened db box (delete_row user t).0) text y e (delete_row-Deleted user t v))

  Deleted-IsValid :
      (user : String) (t : TokenTable) (r : Result String) (t' : TokenTable)
      → IsValid box t
      → Deleted user t r t'
      → IsValid box t'
  Deleted-IsValid user t r t' h (kept_all e _ same) = subst (IsValid box) (sym same) h
  Deleted-IsValid user t r t' h (erased row s found _ e) =
      subst (IsValid box) (sym e) (erase-IsValid box user t h)

  Deleted-others :
      (user : String) (t : TokenTable) (r : Result String) (t' : TokenTable) (other : String)
      → user ≢ other
      → Deleted user t r t'
      → view box t' other ≡ view box t other
  Deleted-others user t r t' other ne (kept_all e _ same) = rw same
  Deleted-others user t r t' other ne (erased row s found _ e) =
      rw e (view-erase_ne box user other t ne)

  Deleted-gone :
      (user refresh : String) (t : TokenTable) (r : Result String) (t' : TokenTable)
      → r ≡ ok refresh
      → Deleted user t r t'
      → (rec : TokenRecord) × (view box t user ≡ some (ok rec))
        × (rec.refresh_token ≡ refresh)
        × (view box t' user ≡ none)
  Deleted-gone user refresh t r t' h (kept_all e bad _) = cc
  Deleted-gone user refresh t r t' h (erased row s found good e) = (
    record_of user row s.refresh s.access,
    view-IsSealed box user row t s found,
    cc,
    rw e (view-erase_self box user t),
  )

  Deleted-failed :
      (user : String) (t : TokenTable) (r : Result String) (t' : TokenTable) (e : Error)
      → r ≡ err e
      → Deleted user t r t'
      → t' ≡ t
  Deleted-failed user t r t' e h (kept_all _ _ same) = same
  Deleted-failed user t r t' e h (erased row s found good _) = cc

  -- `Delete` keeps its contract.
  pub delete-DeleteContract :
      DeleteContract (pg_token_store sys db box) (IsValid box) (view box) (kept sys db box)
  delete-DeleteContract = record {
    valid = λ ctx user t x h. Deleted-IsValid user t _ _ h (delete-Deleted ctx user t x h).holds;
    others = λ ctx user t x other h ne.
        Deleted-others user t _ _ other ne (delete-Deleted ctx user t x h).holds;
    deleted = λ ctx user refresh t x v h.
        Deleted-gone user refresh t _ _ h (Ran-ok h (delete-Deleted ctx user t x v));
  }

  delete_failed :
      Answers db
      → (ctx : Context X) (user : String) (t : TokenTable) (x : X) (e : Error) → IsValid box t
      → (delete db box ctx user (t, x)).0 ≡ err e
      → (delete db box ctx user (t, x)).1.0 ≡ t
  delete_failed answers ctx user t x e v h =
      Deleted-failed user t _ _ e h (Ran-answered answers (delete-Deleted ctx user t x v))

module _ {X : Type 0} (sys : System X) (db : Database X) (box : Box) where
  pub pg_token_store-TokenContract :
      IsAead box.aead
      → FillsBuffer sys
      → Answers db
      → TokenContract (pg_token_store sys db box) (IsValid box) (view box) (kept sys db box)
  pg_token_store-TokenContract law fills answers = record {
    saves = save-SaveContract sys db box law fills;
    updates = update-UpdateContract sys db box law fills;
    reads = read-ReadContract sys db box;
    deletes = delete-DeleteContract sys db box;
    failures = record {
      saving = λ ctx rec t x e h. save_failed sys db box law fills answers ctx rec t x e h;
      updating = λ ctx user access expiry t x e h.
          update_failed sys db box law fills answers ctx user access expiry t x e h;
      deleting = λ ctx user t x e v h. delete_failed sys db box answers ctx user t x e v h;
    };
  }
