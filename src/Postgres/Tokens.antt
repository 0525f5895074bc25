-- ===== src/Postgres/Tokens.antt =====
-- postgres/tokens.go: the token store over the table photopicker_oauth_tokens, whose constraints are
-- in postgres/schema.go. The primary key is the user, so the table is a map from users to the
-- other columns. BYTEA columns hold bytes; the empty list is NULL, as `box.Seal` leaves it.
mod Table
pub mod View
pub mod Rows
pub mod Saving
pub mod Keeping
pub mod Updating
pub mod Contract
mod Tests
unfoldable pub use Table.*
use google_photos_picker.Base.{
  ℕ, String, Bool, true, false, Option, none, some, List, StringMap, lookup, insert, erase, ◌==◌,
  eqb, if◌then◌else◌,
}
use google_photos_picker.Errors.{Error, sentinel, no_tokens, wrap, is, sql_no_rows}
use google_photos_picker.Exec.{
  outside, Result, ok, err, Exec, Context, pure, fail, lift, map_error, wrapping, ◌>>=◌, branch,
}
use google_photos_picker.System.{System}
use google_photos_picker.Cryptobox.{Aead, Box, new_from_hex, seal, open_box}
use google_photos_picker.Stores.{TokenRecord, TokenStatus, TokenStore}
use google_photos_picker.Postgres.Database.{
  Database, statement, fits_varchar, value_too_long, not_null_violation,
}

module _ {X : Type 0} (db : Database X) (rec : TokenRecord) where
  -- The two statements of `Save`, over the ciphertexts.
  abbrev pub save_update : List ℕ → X → Exec TokenTable (Unit {0})
  save_update access x =
      update_tokens rec.user_id access (nullable db.timestamptz rec.expires_at) (db.now x)
        rec.scopes

  abbrev pub save_insert : List ℕ → List ℕ → X → Exec TokenTable (Unit {0})
  save_insert refresh access x =
      upsert_tokens rec.user_id refresh access (nullable db.timestamptz rec.expires_at) (db.now x)
        rec.scopes

module _ {X : Type 0} (sys : System X) (db : Database X) (box : Box) where
  abbrev pub save_new : Context X → TokenRecord → List ℕ → Exec (TokenTable × X) (Unit {0})
  save_new ctx rec access = do
    refresh ← outside (seal sys box rec.refresh_token)
    statement db ctx (save_insert db rec refresh access)

  abbrev pub save_sealed : Context X → TokenRecord → List ℕ → Exec (TokenTable × X) (Unit {0})
  save_sealed ctx rec access =
      branch (rec.refresh_token == "") (statement db ctx (save_update db rec access))
        (save_new ctx rec access)

  -- `Save`
  unfoldable pub save : Context X → TokenRecord → Exec (TokenTable × X) (Unit {0})
  unfolding statement
  save ctx rec = do access ← outside (seal sys box rec.access_token); save_sealed ctx rec access

  -- `UpdateAccess`
  unfoldable pub update_access : Context X → String → String → ℕ → Exec (TokenTable × X) (Unit {0})
  unfolding statement
  update_access ctx user_id access_token expires_at = do
    access ← outside (seal sys box access_token)
    let expiry = nullable db.timestamptz expires_at
    statement db ctx (λ x. update_access_row user_id access expiry (db.now x))

module _ {X : Type 0} (db : Database X) (box : Box) where
  abbrev read_row : String → Result TokenRow → Result TokenRecord
  read_row user_id (ok row) = decrypt_row box user_id row
  read_row user_id (err e) = err (no_rows_as_no_tokens e)

  -- `Load`
  unfoldable pub load : Context X → String → Exec (TokenTable × X) TokenRecord
  unfolding statement
  load ctx user_id w =
      let (r, w') = statement db ctx (λ x. select_row user_id) w in (read_row user_id r, w')

  abbrev status_of : Result TokenRow → Result TokenStatus
  status_of (ok row) = ok (record { connected = true; scopes = some row.scopes })
  status_of (err e) =
      if is e sql_no_rows then ok (record { connected = false; scopes = none }) else err e

  -- `Status`
  unfoldable pub status : Context X → String → Exec (TokenTable × X) TokenStatus
  unfolding statement
  status ctx user_id w =
      let (r, w') = statement db ctx (λ x. select_row user_id) w in (status_of r, w')

  abbrev opened : Result (List ℕ) → Result String
  opened (ok refresh) = open_box box refresh
  opened (err e) = err (no_rows_as_no_tokens e)

  -- `Delete`
  unfoldable pub delete : Context X → String → Exec (TokenTable × X) String
  unfolding statement
  delete ctx user_id w =
      let (r, w') = statement db ctx (λ x. delete_row user_id) w in (opened r, w')

module _ {X : Type 0} (sys : System X) (db : Database X) (box : Box) where
  -- The store as the interface that the client takes.
  abbrev pub pg_token_store : TokenStore TokenTable X
  pg_token_store = record {
    save = save sys db box;
    load = load db box;
    update_access = update_access sys db box;
    status = status db box;
    delete = delete db box;
  }

-- `NewTokenStore`: the box of the store, from the text of the key.
unfoldable pub new_token_store :
    {X : Type 0}
    → System X
    → Database X
    → (List ℕ → Result Aead)
    → String
    → Result (TokenStore TokenTable X)
new_token_store sys db aes_gcm key_hex = elim (new_from_hex aes_gcm key_hex) [
  | err e ↦ err e
  | ok box ↦ ok (pg_token_store sys db box)
]
