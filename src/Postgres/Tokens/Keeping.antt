-- ===== src/Postgres/Tokens/Keeping.antt =====
-- `Save` (postgres/tokens.go) against the contract of stores.go, in each of the ways for it to end.
use google_photos_picker.Base.{ℕ, String, ◌≡◌, ◌≢◌, sym, subst, ◌∙◌, some, List}
use google_photos_picker.Errors.{Error}
use google_photos_picker.Exec.{Result, ok, err, Context}
use google_photos_picker.System.{System}
use google_photos_picker.Cryptobox.{Box, open_box}
use google_photos_picker.Cryptobox.RoundTrip.{IsAead, FillsBuffer, open_box-seal}
use google_photos_picker.Stores.{TokenRecord}
use google_photos_picker.Stores.Contract.{SaveContract}
use google_photos_picker.Postgres.Database.{Database, Answers, Ran-ok, Ran-answered}
use google_photos_picker.Postgres.Tokens.{TokenRow, TokenTable, nullable, save, pg_token_store}
use google_photos_picker.Postgres.Tokens.View.{
  view, IsValid, decrypt_row_lem, insert-IsValid, view-none, view-IsSealed, view-insert_self,
  view-insert_ne,
}
use google_photos_picker.Postgres.Tokens.Saving.{
  kept, kept_record, Made, Saved, failed, ignored, updated, inserted, save-Saved,
}

module _ {X : Type 0} (sys : System X) (db : Database X) (box : Box) (law : IsAead box.aead)
    (fills : FillsBuffer sys) where
  -- What the box made of a text opens to that text.
  pub opens : (plain : String) (ct : List ℕ) → Made sys db box plain ct → open_box box ct ≡ ok plain
  opens plain ct (y, h) = open_box-seal box law sys fills plain y ct h

  Saved-IsValid :
      (rec : TokenRecord) (t : TokenTable) (r : Result (Unit {0})) (t' : TokenTable)
      → IsValid box t
      → Saved sys db box rec t r t'
      → IsValid box t'
  Saved-IsValid rec t r t' h (failed e _ same) = subst (IsValid box) (sym same) h
  Saved-IsValid rec t r t' h (ignored _ _ _ same) = subst (IsValid box) (sym same) h
  Saved-IsValid rec t r t' h (updated row access now scopes _ found made _ _ e) =
      let old = h.sealed rec.user_id row found in
      subst (IsValid box) (sym e) (
        insert-IsValid box rec.user_id _ t
          (record {
            refresh = old.refresh;
            access = rec.access_token;
            refresh_opens = old.refresh_opens;
            access_opens = opens rec.access_token access made;
          })
          h)
  Saved-IsValid rec t r t' h (inserted refresh access created now scopes _ sealed made _ _ e) =
      subst (IsValid box) (sym e) (
        insert-IsValid box rec.user_id _ t
          (record {
            refresh = rec.refresh_token;
            access = rec.access_token;
            refresh_opens = opens rec.refresh_token refresh sealed;
            access_opens = opens rec.access_token access made;
          })
          h)

  Saved-view :
      (rec : TokenRecord) (t : TokenTable) (r : Result (Unit {0})) (t' : TokenTable)
      → rec.refresh_token ≢ ""
      → r ≡ ok tt
      → Saved sys db box rec t r t'
      → view box t' rec.user_id ≡ some (ok (kept_record sys db box rec))
  Saved-view rec t r t' full h (failed e f same) = cc
  Saved-view rec t r t' full h (ignored empty _ _ same) = absurd (full empty)
  Saved-view rec t r t' full h (updated row access now scopes empty found made _ _ e) =
      absurd (full empty)
  Saved-view rec t r t' full h
        (inserted refresh access created now scopes _ sealed made listed _ e) =
      let row : TokenRow = record {
        refresh_token = refresh;
        access_token = access;
        expires_at = nullable db.timestamptz rec.expires_at;
        scopes = scopes;
        created_at = created;
        updated_at = now;
      } in
      let read =
        decrypt_row_lem box rec.user_id row rec.refresh_token rec.access_token
          (opens rec.access_token access made) (opens rec.refresh_token refresh sealed) in
      rw e (view-insert_self box rec.user_id row t ∙ cc (read, listed))

  Saved-view_kept :
      (rec old : TokenRecord) (t : TokenTable) (r : Result (Unit {0})) (t' : TokenTable)
      → IsValid box t
      → rec.refresh_token ≡ ""
      → view box t rec.user_id ≡ some (ok old)
      → r ≡ ok tt
      → Saved sys db box rec t r t'
      → view box t' rec.user_id
        ≡ some (
            ok (record rec {
              refresh_token = old.refresh_token;
              expires_at = kept sys db box rec.expires_at;
            }))
  Saved-view_kept rec old t r t' v empty known h (failed e f same) = cc
  Saved-view_kept rec old t r t' v empty known h (ignored _ missing _ same) =
      cc (view-none box rec.user_id t missing)
  Saved-view_kept rec old t r t' v empty known h
        (updated row access now scopes _ found made listed _ e) =
      let sealed = v.sealed rec.user_id row found in
      let row' : TokenRow = record row {
        access_token = access;
        expires_at = nullable db.timestamptz rec.expires_at;
        scopes = scopes;
        updated_at = now;
      } in
      let before = view-IsSealed box rec.user_id row t sealed found in
      let read =
        decrypt_row_lem box rec.user_id row' sealed.refresh rec.access_token
          (opens rec.access_token access made) sealed.refresh_opens in
      rw e (view-insert_self box rec.user_id row' t ∙ cc (read, before, known, listed))
  Saved-view_kept rec old t r t' v empty known h
        (inserted refresh access created now scopes full _ _ _ _ e) =
      absurd (full empty)

  Saved-others :
      (rec : TokenRecord) (t : TokenTable) (r : Result (Unit {0})) (t' : TokenTable)
      (other : String)
      → rec.user_id ≢ other
      → Saved sys db box rec t r t'
      → view box t' other ≡ view box t other
  Saved-others rec t r t' other ne (failed e f same) = rw same
  Saved-others rec t r t' other ne (ignored _ _ _ same) = rw same
  Saved-others rec t r t' other ne (updated row access now scopes _ found made _ _ e) =
      rw e (view-insert_ne box rec.user_id other _ t ne)
  Saved-others rec t r t' other ne
        (inserted refresh access created now scopes _ sealed made _ _ e) =
      rw e (view-insert_ne box rec.user_id other _ t ne)

  Saved-failed :
      (rec : TokenRecord) (t : TokenTable) (r : Result (Unit {0})) (t' : TokenTable) (e : Error)
      → r ≡ err e
      → Saved sys db box rec t r t'
      → t' ≡ t
  Saved-failed rec t r t' e h (failed _ _ same) = same
  Saved-failed rec t r t' e h (ignored _ _ _ same) = same
  Saved-failed rec t r t' e h (updated row access now scopes _ found made _ good _) = cc
  Saved-failed rec t r t' e h (inserted refresh access created now scopes _ sealed made _ good _) =
      cc

  -- `Save` keeps its contract.
  pub save-SaveContract :
      SaveContract (pg_token_store sys db box) (IsValid box) (view box) (kept sys db box)
  save-SaveContract = record {
    valid = λ ctx rec t x h. Saved-IsValid rec t _ _ h (save-Saved sys db box ctx rec t x).holds;
    others = λ ctx rec t x other h.
        Saved-others rec t _ _ other h (save-Saved sys db box ctx rec t x).holds;
    stored = λ ctx rec t x full h.
        Saved-view rec t _ _ full h (Ran-ok h (save-Saved sys db box ctx rec t x));
    refresh_preserved = λ ctx rec old t x v empty known h.
        Saved-view_kept rec old t _ _ v empty known h
          (Ran-ok h (save-Saved sys db box ctx rec t x));
  }

  pub save_failed :
      Answers db
      → (ctx : Context X) (rec : TokenRecord) (t : TokenTable) (x : X) (e : Error)
      → (save sys db box ctx rec (t, x)).0 ≡ err e
      → (save sys db box ctx rec (t, x)).1.0 ≡ t
  save_failed answers ctx rec t x e h =
      Saved-failed rec t _ _ e h (Ran-answered answers (save-Saved sys db box ctx rec t x))
