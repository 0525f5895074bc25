-- ===== src/Stores/Contract.antt =====
-- What stores.go asks of an implementation of `TokenStore`, as laws over an abstract view: `view`
-- gives the record that is kept of a user in plain text (`none` for a user who is not connected),
-- and `kept` the instant that comes back for an expiry that was stored.
use google_photos_picker.Base.{ℕ, String, Bool, true, false, ◌≡◌, ◌≢◌, Option, none, some}
use google_photos_picker.Errors.{Error}
use google_photos_picker.Exec.{Result, ok, err, Context}
use google_photos_picker.Stores.{TokenRecord, TokenStatus, TokenStore}

abbrev pub is_connected : Option (Result TokenRecord) → Bool
is_connected none = false
is_connected (some _) = true

module _ {T X : Type 0} (ts : TokenStore T X) (Valid : T → Type 0)
    (view : T → String → Option (Result TokenRecord)) (kept : ℕ → ℕ) where
  -- A save, and an update of the access token: each keeps other users.
  pub record SaveContract : Type 0 where
    pub valid :
        (ctx : Context X) (rec : TokenRecord) (t : T) (x : X)
        → Valid t
        → Valid (ts.save ctx rec (t, x)).1.0
    pub others :
        (ctx : Context X) (rec : TokenRecord) (t : T) (x : X) (other : String)
        → rec.user_id ≢ other
        → view (ts.save ctx rec (t, x)).1.0 other ≡ view t other
    pub stored :
        (ctx : Context X) (rec : TokenRecord) (t : T) (x : X)
        → rec.refresh_token ≢ ""
        → (ts.save ctx rec (t, x)).0 ≡ ok tt
        → view (ts.save ctx rec (t, x)).1.0 rec.user_id
          ≡ some (ok (record rec { expires_at = kept rec.expires_at }))
    -- An empty refresh token leaves the one that is stored.
    pub refresh_preserved :
        (ctx : Context X) (rec old : TokenRecord) (t : T) (x : X)
        → Valid t
        → rec.refresh_token ≡ ""
        → view t rec.user_id ≡ some (ok old)
        → (ts.save ctx rec (t, x)).0 ≡ ok tt
        → view (ts.save ctx rec (t, x)).1.0 rec.user_id
          ≡ some (
              ok (record rec {
                refresh_token = old.refresh_token;
                expires_at = kept rec.expires_at;
              }))

  pub record UpdateContract : Type 0 where
    pub valid :
        (ctx : Context X) (user access : String) (expiry : ℕ) (t : T) (x : X)
        → Valid t
        → Valid (ts.update_access ctx user access expiry (t, x)).1.0
    pub others :
        (ctx : Context X) (user access : String) (expiry : ℕ) (t : T) (x : X) (other : String)
        → user ≢ other
        → view (ts.update_access ctx user access expiry (t, x)).1.0 other ≡ view t other
    pub updated :
        (ctx : Context X) (user access : String) (expiry : ℕ) (old : TokenRecord) (t : T) (x : X)
        → Valid t
        → view t user ≡ some (ok old)
        → (ts.update_access ctx user access expiry (t, x)).0 ≡ ok tt
        → view (ts.update_access ctx user access expiry (t, x)).1.0 user
          ≡ some (ok (record old { access_token = access; expires_at = kept expiry }))

  pub record ReadContract : Type 0 where
    pub load_state :
        (ctx : Context X) (user : String) (t : T) (x : X) → (ts.load ctx user (t, x)).1.0 ≡ t
    pub status_state :
        (ctx : Context X) (user : String) (t : T) (x : X) → (ts.status ctx user (t, x)).1.0 ≡ t
    pub loaded :
        (ctx : Context X) (user : String) (rec : TokenRecord) (t : T) (x : X)
        → (ts.load ctx user (t, x)).0 ≡ ok rec
        → view t user ≡ some (ok rec)
    pub connected :
        (ctx : Context X) (user : String) (st : TokenStatus) (t : T) (x : X)
        → (ts.status ctx user (t, x)).0 ≡ ok st
        → st.connected ≡ is_connected (view t user)
    -- The scopes are those of the record; a user without one has none.
    pub scopes :
        (ctx : Context X) (user : String) (st : TokenStatus) (rec : TokenRecord) (t : T) (x : X)
        → (ts.status ctx user (t, x)).0 ≡ ok st
        → view t user ≡ some (ok rec)
        → st.scopes ≡ rec.scopes
    pub no_scopes :
        (ctx : Context X) (user : String) (st : TokenStatus) (t : T) (x : X)
        → (ts.status ctx user (t, x)).0 ≡ ok st
        → view t user ≡ none
        → st.scopes ≡ none

  pub record DeleteContract : Type 0 where
    pub valid :
        (ctx : Context X) (user : String) (t : T) (x : X)
        → Valid t
        → Valid (ts.delete ctx user (t, x)).1.0
    pub others :
        (ctx : Context X) (user : String) (t : T) (x : X) (other : String)
        → Valid t
        → user ≢ other
        → view (ts.delete ctx user (t, x)).1.0 other ≡ view t other
    -- What was deleted is gone, and the refresh token that comes back is the one that was kept.
    pub deleted :
        (ctx : Context X) (user refresh : String) (t : T) (x : X)
        → Valid t
        → (ts.delete ctx user (t, x)).0 ≡ ok refresh
        → (rec : TokenRecord) × (view t user ≡ some (ok rec))
          × (rec.refresh_token ≡ refresh)
          × (view (ts.delete ctx user (t, x)).1.0 user ≡ none)

  -- An operation that fails changes nothing.
  pub record FailureContract : Type 0 where
    pub saving :
        (ctx : Context X) (rec : TokenRecord) (t : T) (x : X) (e : Error)
        → (ts.save ctx rec (t, x)).0 ≡ err e
        → (ts.save ctx rec (t, x)).1.0 ≡ t
    pub updating :
        (ctx : Context X) (user access : String) (expiry : ℕ) (t : T) (x : X) (e : Error)
        → (ts.update_access ctx user access expiry (t, x)).0 ≡ err e
        → (ts.update_access ctx user access expiry (t, x)).1.0 ≡ t
    pub deleting :
        (ctx : Context X) (user : String) (t : T) (x : X) (e : Error)
        → Valid t
        → (ts.delete ctx user (t, x)).0 ≡ err e
        → (ts.delete ctx user (t, x)).1.0 ≡ t

  pub record TokenContract : Type 0 where
    pub saves : SaveContract
    pub updates : UpdateContract
    pub reads : ReadContract
    pub deletes : DeleteContract
    pub failures : FailureContract
