-- ===== src/Postgres/Tokens/Rows.antt =====
-- What the operations of postgres/tokens.go do to the table: a save and an update write the row of
-- their user, a deletion removes it, and a read changes nothing.
use google_photos_picker.Base.{
  ℕ, String, ◌≡◌, refl, subst, sym, none, some, Option, List, lookup, insert, erase, ◌==◌, Bool,
  true, false,
}
use google_photos_picker.Exec.{Context}
use google_photos_picker.Exec.Invariants.{Keeps, OnStore, outside-Keeps, bind-Keeps, branch-Keeps}
use google_photos_picker.System.{System}
use google_photos_picker.Cryptobox.{Box, seal}
use google_photos_picker.Stores.{TokenRecord}
use google_photos_picker.Stores.Keeping.{SavesKeep, TokensKeep}
use google_photos_picker.Postgres.Database.{Database, fits_varchar, statement-Keeps}
use google_photos_picker.Postgres.Tokens.{
  TokenRow, TokenTable, update_tokens, upsert_tokens, select_row, update_access_row, delete_row,
  save, save_update, save_insert, update_access, load, status, delete, pg_token_store,
}

module _ {ℓ} (P : TokenTable → Type ℓ) (user_id : String) where
  -- Writing the user's row keeps P.
  abbrev pub WritesKeep : Type ℓ
  WritesKeep = (row : TokenRow) (t : TokenTable) → P t → P (insert user_id row t)

  -- Changing the user's row, if there is one, keeps P.
  abbrev pub ChangesKeep : Type ℓ
  ChangesKeep =
      (old new : TokenRow) (t : TokenTable)
      → lookup user_id t ≡ some old
      → P t
      → P (insert user_id new t)

  update_tokens-keeps :
      ChangesKeep
      → (access : List ℕ) (expiry : Option ℕ) (now : ℕ) (scopes : Option (List String))
        (t : TokenTable)
      → P t
      → P (update_tokens user_id access expiry now scopes t).1
  update_tokens-keeps keep access expiry now scopes t p = go (lookup user_id t) refl scopes
    where
      go :
          (r : Option TokenRow)
          → lookup user_id t ≡ r
          → (scopes : Option (List String)) → P (update_tokens user_id access expiry now scopes t).1
      go none e none = rw (e, update_tokens) p
      go none e (some _) = rw (e, update_tokens) p
      go (some row) e none = rw (e, update_tokens) p
      go (some row) e (some _) = rw (e, update_tokens) (keep row _ t e p)

  upsert_tokens-keeps :
      WritesKeep
      → (refresh access : List ℕ) (expiry : Option ℕ) (now : ℕ) (scopes : Option (List String))
        (t : TokenTable)
      → P t
      → P (upsert_tokens user_id refresh access expiry now scopes t).1
  upsert_tokens-keeps keep refresh access expiry now none t p = p
  upsert_tokens-keeps keep refresh access expiry now (some scopes) t p =
      go (fits_varchar 255 user_id) refl
    where
      go :
          (b : Bool)
          → fits_varchar 255 user_id ≡ b
          → P (upsert_tokens user_id refresh access expiry now (some scopes) t).1
      go true e = rw (upsert_tokens, e) (keep _ t p)
      go false e = rw (upsert_tokens, e) p

  update_access_row-keeps :
      ChangesKeep
      → (access : List ℕ) (expiry : Option ℕ) (now : ℕ) (t : TokenTable) → P t
      → P (update_access_row user_id access expiry now t).1
  update_access_row-keeps keep access expiry now t p = go (lookup user_id t) refl
    where
      go :
          (r : Option TokenRow)
          → lookup user_id t ≡ r
          → P (update_access_row user_id access expiry now t).1
      go none e = rw (e, update_access_row) p
      go (some row) e = rw (e, update_access_row) (keep row _ t e p)

  delete_row-keeps :
      ((t : TokenTable) → P t → P (erase user_id t))
      → (t : TokenTable) → P t
      → P (delete_row user_id t).1
  delete_row-keeps keep t p = go (lookup user_id t) refl
    where
      go : (r : Option TokenRow) → lookup user_id t ≡ r → P (delete_row user_id t).1
      go none e = rw (e, delete_row) p
      go (some row) e = rw (e, delete_row) (keep t p)

  select_row-keeps : (t : TokenTable) → P t → P (select_row user_id t).1
  select_row-keeps t p = go (lookup user_id t) refl
    where
      go : (r : Option TokenRow) → lookup user_id t ≡ r → P (select_row user_id t).1
      go none e = rw (e, select_row) p
      go (some row) e = rw (e, select_row) p

module _ (P : TokenTable → Type 0) {X : Type 0} (sys : System X) (db : Database X) (box : Box) where
  -- A save keeps what writing its user's row keeps.
  pub save-Keeps :
      (ctx : Context X) (rec : TokenRecord)
      → WritesKeep P rec.user_id
      → Keeps (OnStore P) (save sys db box ctx rec)
  unfolding save
  save-Keeps ctx rec keep = bind-Keeps _ (outside-Keeps P (seal sys box rec.access_token)) λ access.
      branch-Keeps _ (rec.refresh_token == "") _ _
        (statement-Keeps P db ctx (save_update db rec access) (λ y.
          update_tokens-keeps P rec.user_id (λ old new t e. keep new t) access _ _ rec.scopes))
        (bind-Keeps _ (outside-Keeps P (seal sys box rec.refresh_token)) λ refresh.
          statement-Keeps P db ctx (save_insert db rec refresh access)
            (λ y. upsert_tokens-keeps P rec.user_id keep refresh access _ _ rec.scopes))

  pub save-SavesKeep :
      (user_id : String) → WritesKeep P user_id → SavesKeep P (pg_token_store sys db box) user_id
  save-SavesKeep user_id keep ctx rec own = save-Keeps ctx rec (subst (WritesKeep P) (sym own) keep)

  -- The other operations keep what changing and deleting the user's row keep.
  pub pg_token_store-TokensKeep :
      (user_id : String)
      → ChangesKeep P user_id
      → ((t : TokenTable) → P t → P (erase user_id t))
      → TokensKeep P (pg_token_store sys db box) user_id
  unfolding update_access load status delete
  pg_token_store-TokensKeep user_id changes erases = record {
    loads = λ ctx. record {
      at = λ w p.
          (statement-Keeps P db ctx (λ y. select_row user_id) (λ y. select_row-keeps P user_id)).at
            w p;
    };
    updates = λ ctx access expiry.
        bind-Keeps _ (outside-Keeps P (seal sys box access))
          λ ct. statement-Keeps P db ctx _ (λ y. update_access_row-keeps P user_id changes ct _ _);
    statuses = λ ctx. record {
      at = λ w p.
          (statement-Keeps P db ctx (λ y. select_row user_id) (λ y. select_row-keeps P user_id)).at
            w p;
    };
    deletes = λ ctx. record {
      at = λ w p.
          (statement-Keeps P db ctx (λ y. delete_row user_id)
              (λ y. delete_row-keeps P user_id erases)).at
            w p;
    };
  }
