-- ===== src/Postgres/Tokens/Updating.antt =====
-- `UpdateAccess`: the ways for it to end, and its contract.
use google_photos_picker.Base.{
  ℕ, String, ◌≡◌, ◌≢◌, refl, sym, subst, ◌∙◌, inl, inr, none, some, List, lookup, insert, arith,
  Option-cases,
}
use google_photos_picker.Errors.{Error, other as other_error}
use google_photos_picker.Exec.{Result, ok, err, Context}
use google_photos_picker.System.{System}
use google_photos_picker.Cryptobox.{Box, open_box, seal}
use google_photos_picker.Cryptobox.RoundTrip.{IsAead, FillsBuffer}
use google_photos_picker.Stores.{TokenRecord}
use google_photos_picker.Stores.Contract.{UpdateContract}
use google_photos_picker.Postgres.Database.{
  Database, Answers, Ran, Ran-ok, Ran-answered, heard_all, statement, statement-Ran, outside_rule,
}
use google_photos_picker.Postgres.Tokens.{
  TokenRow, TokenTable, nullable, update_access, update_access_row, pg_token_store,
}
use google_photos_picker.Postgres.Tokens.View.{
  view, IsValid, decrypt_row_lem, insert-IsValid, view-none, view-IsSealed, view-insert_self,
  view-insert_ne,
}
use google_photos_picker.Postgres.Tokens.Saving.{kept, Made}
use google_photos_picker.Postgres.Tokens.Keeping.{opens as opens_with}

module _ {X : Type 0} (sys : System X) (db : Database X) (box : Box) (law : IsAead box.aead)
    (fills : FillsBuffer sys) where
  opens : (plain : String) (ct : List ℕ) → Made sys db box plain ct → open_box box ct ≡ ok plain
  opens = opens_with sys db box law fills

  -- Every way for `UpdateAccess` to end.
  data Updated (user access : String) (expiry : ℕ) (t : TokenTable) (r : Result (Unit {0}))
      (t' : TokenTable) : Type 0 where
    failed : (e : Error) → r ≡ err e → t' ≡ t → Updated user access expiry t r t'
    ignored : lookup user t ≡ none → t' ≡ t → Updated user access expiry t r t'
    written :
        (row : TokenRow) (ct : List ℕ) (now : ℕ)
        → lookup user t ≡ some row
        → Made sys db box access ct
        → r ≡ ok tt
        → t'
          ≡ insert user
              (record row {
                access_token = ct;
                expires_at = nullable db.timestamptz expiry;
                updated_at = now;
              })
              t
        → Updated user access expiry t r t'

  update_access_row-Updated :
      (user access : String) (expiry : ℕ) (ct : List ℕ) (now : ℕ) (t : TokenTable)
      → Made sys db box access ct
      → let w = update_access_row user ct (nullable db.timestamptz expiry) now t in
        Updated user access expiry t w.0 w.1
  update_access_row-Updated user access expiry ct now t made = elim (Option-cases (lookup user t)) [
    | inl missing ↦ Updated.ignored missing (ground arith)
    | inr (row, found) ↦ written row ct now found made (ground arith) (ground arith)
  ]

  update_access-Updated :
      (ctx : Context X) (user access : String) (expiry : ℕ) (t : TokenTable) (x : X)
      → let w = update_access sys db box ctx user access expiry (t, x) in
        Ran db (Updated user access expiry t) w.0 w.1.0
  unfolding update_access
  update_access-Updated ctx user access expiry t x =
      let run = λ (ct : List ℕ) (y : X).
        update_access_row user ct (nullable db.timestamptz expiry) (db.now y) in
      outside_rule (Ran db (Updated user access expiry t)) (seal sys box access)
        (λ ct. statement db ctx (run ct)) t x (λ e. heard_all (Updated.failed e refl refl))
        (λ ct y made.
          statement-Ran (Updated user access expiry t) db ctx (run ct) t y
            (λ text. Updated.failed (other_error text) refl refl)
            (λ z. update_access_row-Updated user access expiry ct (db.now z) t (x, made)))

  Updated-IsValid :
      (user access : String) (expiry : ℕ) (t : TokenTable) (r : Result (Unit {0})) (t' : TokenTable)
      → IsValid box t
      → Updated user access expiry t r t'
      → IsValid box t'
  Updated-IsValid user access expiry t r t' h (failed e _ same) = subst (IsValid box) (sym same) h
  Updated-IsValid user access expiry t r t' h (ignored _ same) = subst (IsValid box) (sym same) h
  Updated-IsValid user access expiry t r t' h (written row ct now found made _ e) =
      let old = h.sealed user row found in
      subst (IsValid box) (sym e) (
        insert-IsValid box user _ t
          (record {
            refresh = old.refresh;
            access = access;
            refresh_opens = old.refresh_opens;
            access_opens = opens access ct made;
          })
          h)

  Updated-view :
      (user access : String) (expiry : ℕ) (old : TokenRecord) (t : TokenTable)
      (r : Result (Unit {0})) (t' : TokenTable)
      → IsValid box t
      → view box t user ≡ some (ok old)
      → r ≡ ok tt
      → Updated user access expiry t r t'
      → view box t' user
        ≡ some (ok (record old { access_token = access; expires_at = kept sys db box expiry }))
  Updated-view user access expiry old t r t' v known h (failed e bad _) = cc
  Updated-view user access expiry old t r t' v known h (ignored missing _) =
      cc (view-none box user t missing)
  Updated-view user access expiry old t r t' v known h (written row ct now found made _ e) =
      let sealed = v.sealed user row found in
      let row' : TokenRow = record row {
        access_token = ct;
        expires_at = nullable db.timestamptz expiry;
        updated_at = now;
      } in
      let before = view-IsSealed box user row t sealed found in
      let read =
        decrypt_row_lem box user row' sealed.refresh access (opens access ct made)
          sealed.refresh_opens in
      rw e (view-insert_self box user row' t ∙ cc (read, before, known))

  Updated-others :
      (user access : String) (expiry : ℕ) (t : TokenTable) (r : Result (Unit {0})) (t' : TokenTable)
      (other : String)
      → user ≢ other
      → Updated user access expiry t r t'
      → view box t' other ≡ view box t other
  Updated-others user access expiry t r t' other ne (failed _ _ same) = rw same
  Updated-others user access expiry t r t' other ne (ignored _ same) = rw same
  Updated-others user access expiry t r t' other ne (written row ct now found made _ e) =
      rw e (view-insert_ne box user other _ t ne)

  Updated-failed :
      (user access : String) (expiry : ℕ) (t : TokenTable) (r : Result (Unit {0})) (t' : TokenTable)
      (e : Error)
      → r ≡ err e
      → Updated user access expiry t r t'
      → t' ≡ t
  Updated-failed user access expiry t r t' e h (failed _ _ same) = same
  Updated-failed user access expiry t r t' e h (ignored _ same) = same
  Updated-failed user access expiry t r t' e h (written row ct now found made good _) = cc

  -- `UpdateAccess` keeps its contract.
  pub update-UpdateContract :
      UpdateContract (pg_token_store sys db box) (IsValid box) (view box) (kept sys db box)
  update-UpdateContract = record {
    valid = λ ctx user access expiry t x h.
        Updated-IsValid user access expiry t _ _ h
          (update_access-Updated ctx user access expiry t x).holds;
    others = λ ctx user access expiry t x other h.
        Updated-others user access expiry t _ _ other h
          (update_access-Updated ctx user access expiry t x).holds;
    updated = λ ctx user access expiry old t x v known h.
        Updated-view user access expiry old t _ _ v known h
          (Ran-ok h (update_access-Updated ctx user access expiry t x));
  }

  pub update_failed :
      Answers db
      → (ctx : Context X) (user access : String) (expiry : ℕ) (t : TokenTable) (x : X) (e : Error)
      → (update_access sys db box ctx user access expiry (t, x)).0 ≡ err e
      → (update_access sys db box ctx user access expiry (t, x)).1.0 ≡ t
  update_failed answers ctx user access expiry t x e h =
      Updated-failed user access expiry t _ _ e h
        (Ran-answered answers (update_access-Updated ctx user access expiry t x))
