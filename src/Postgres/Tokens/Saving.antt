-- ===== src/Postgres/Tokens/Saving.antt =====
-- `Save` of the token store: the four ways for it to end, and what it leaves in the table in each.
use google_photos_picker.Base.{
  ℕ, String, ◌≡◌, ◌≢◌, refl, Bool, true, false, Option, none, some, List, lookup, insert, ◌==◌,
  eq_iff, arith,
}
use google_photos_picker.Errors.{Error, other}
use google_photos_picker.Exec.{Result, ok, err, Context}
use google_photos_picker.System.{System}
use google_photos_picker.Cryptobox.{Box, seal}
use google_photos_picker.Stores.{TokenRecord}
use google_photos_picker.Postgres.Database.{
  Database, statement, outside_rule, Ran, heard_all, statement-Ran, branch_rule, fits_varchar,
  not_null_violation, value_too_long,
}
use google_photos_picker.Postgres.Tokens.{
  TokenRow, TokenTable, nullable, update_tokens, upsert_tokens, save_update, save_insert, save_new,
  save_sealed, row_created, or_zero, save,
}

module _ {X : Type 0} (sys : System X) (db : Database X) (box : Box) where
  -- The instant that comes back for a `time.Time` that was stored.
  abbrev pub kept : ℕ → ℕ
  kept t = or_zero (nullable db.timestamptz t)

  abbrev pub kept_record : TokenRecord → TokenRecord
  kept_record rec = record rec { expires_at = kept rec.expires_at }

  -- A ciphertext that the box made of a text.
  abbrev pub Made : String → List ℕ → Type 0
  Made plain ct = (y : X) × ((seal sys box plain y).0 ≡ ok ct)

  -- Every way for `Save` to end: it failed and changed nothing; there was no refresh token to save
  -- and no row to update; or one of its two statements wrote the row of the user.
  pub data Saved (rec : TokenRecord) (t : TokenTable) (r : Result (Unit {0})) (t' : TokenTable)
      : Type 0 where
    failed : (e : Error) → r ≡ err e → t' ≡ t → Saved rec t r t'
    ignored :
        rec.refresh_token ≡ "" → lookup rec.user_id t ≡ none → r ≡ ok tt → t' ≡ t → Saved rec t r t'
    updated :
        (row : TokenRow) (access : List ℕ) (now : ℕ) (scopes : List String)
        → rec.refresh_token ≡ ""
        → lookup rec.user_id t ≡ some row
        → Made rec.access_token access
        → rec.scopes ≡ some scopes
        → r ≡ ok tt
        → t'
          ≡ insert rec.user_id
              (record row {
                access_token = access;
                expires_at = nullable db.timestamptz rec.expires_at;
                scopes = scopes;
                updated_at = now;
              })
              t
        → Saved rec t r t'
    inserted :
        (refresh access : List ℕ) (created now : ℕ) (scopes : List String)
        → rec.refresh_token ≢ ""
        → Made rec.refresh_token refresh
        → Made rec.access_token access
        → rec.scopes ≡ some scopes
        → r ≡ ok tt
        → t'
          ≡ insert rec.user_id
              (record {
                refresh_token = refresh;
                access_token = access;
                expires_at = nullable db.timestamptz rec.expires_at;
                scopes = scopes;
                created_at = created;
                updated_at = now;
              })
              t
        → Saved rec t r t'

  update_tokens-Saved :
      (rec : TokenRecord) (t : TokenTable) (access : List ℕ) (now : ℕ)
      → rec.refresh_token ≡ ""
      → Made rec.access_token access
      → let w =
          update_tokens rec.user_id access
            (nullable db.timestamptz rec.expires_at)
            now
            rec.scopes
            t in
        Saved rec t w.0 w.1
  update_tokens-Saved rec t access now empty made = go rec.scopes (lookup rec.user_id t) refl refl
    where
      go :
          (scopes : Option (List String)) (found : Option TokenRow)
          → rec.scopes ≡ scopes
          → lookup rec.user_id t ≡ found
          → let w =
              update_tokens rec.user_id access
                (nullable db.timestamptz rec.expires_at)
                now
                rec.scopes
                t in
            Saved rec t w.0 w.1
      go none none e f = ignored empty f (ground arith) (ground arith)
      go none (some row) e f = failed not_null_violation (ground arith) (ground arith)
      go (some ss) none e f = ignored empty f (ground arith) (ground arith)
      go (some ss) (some row) e f =
          updated row access now ss empty f made e (ground arith) (ground arith)

  upsert_tokens-Saved :
      (rec : TokenRecord) (t : TokenTable) (refresh access : List ℕ) (now : ℕ)
      → rec.refresh_token ≢ ""
      → Made rec.refresh_token refresh
      → Made rec.access_token access
      → let w =
          upsert_tokens rec.user_id refresh access
            (nullable db.timestamptz rec.expires_at)
            now
            rec.scopes
            t in
        Saved rec t w.0 w.1
  upsert_tokens-Saved rec t refresh access now full made_refresh made =
      go rec.scopes (fits_varchar 255 rec.user_id) refl refl
    where
      go :
          (scopes : Option (List String)) (fits : Bool)
          → rec.scopes ≡ scopes
          → fits_varchar 255 rec.user_id ≡ fits
          → let w =
              upsert_tokens rec.user_id refresh access
                (nullable db.timestamptz rec.expires_at)
                now
                rec.scopes
                t in
            Saved rec t w.0 w.1
      go none fits e f = failed not_null_violation (ground arith) (ground arith)
      go (some ss) false e f = failed value_too_long (ground arith) (ground arith)
      go (some ss) true e f =
          inserted refresh access (row_created (lookup rec.user_id t) now) now ss full made_refresh
            made e (ground arith) (ground arith)

  -- However `Save` ends, it ends in one of these ways, if its answer is heard.
  pub save-Saved :
      (ctx : Context X) (rec : TokenRecord) (t : TokenTable) (x : X)
      → let w = save sys db box ctx rec (t, x) in Ran db (Saved rec t) w.0 w.1.0
  unfolding save
  save-Saved ctx rec t x =
      outside_rule (Ran db (Saved rec t)) (seal sys box rec.access_token)
        (save_sealed sys db box ctx rec) t x (λ e. heard_all (failed e refl refl))
        (λ access y made.
          branch_rule (λ w. Ran db (Saved rec t) w.0 w.1.0) (rec.refresh_token == "")
            (statement db ctx (save_update db rec access)) (save_new sys db box ctx rec access)
            (t, y)
            (λ empty.
              statement-Ran (Saved rec t) db ctx (save_update db rec access) t y
                (λ e. failed (other e) refl refl)
                (λ z. update_tokens-Saved rec t access (db.now z) ((eq_iff _ _).0 empty) (x, made)))
            (λ full.
              outside_rule (Ran db (Saved rec t)) (seal sys box rec.refresh_token)
                (λ refresh. statement db ctx (save_insert db rec refresh access)) t y
                (λ e. heard_all (failed e refl refl))
                (λ refresh z sealed.
                  statement-Ran (Saved rec t) db ctx (save_insert db rec refresh access) t z
                    (λ e. failed (other e) refl refl)
                    (λ u.
                      upsert_tokens-Saved rec t refresh access (db.now u)
                        (ground (arith, eq_iff rec.refresh_token "")) (y, sealed) (x, made)))))
