-- ===== src/Service/Renewing.antt =====
-- A user who comes back from Google once more (client.go), over the token store in PostgreSQL.
use google_photos_picker.Base.{String, ◌≡◌, sym, subst, ◌∙◌, Option, some, List, arith}
use google_photos_picker.Exec.{ok, Context}
use google_photos_picker.Exec.Inversion.{ok_inj}
use google_photos_picker.System.{System}
use google_photos_picker.OAuth.{Token, Oauth2}
use google_photos_picker.Cryptobox.{Box}
use google_photos_picker.Cryptobox.RoundTrip.{IsAead, FillsBuffer}
use google_photos_picker.Picker.{Readers}
use google_photos_picker.Stores.{TokenRecord}
use google_photos_picker.Stores.Contract.{SaveContract}
use google_photos_picker.Postgres.Database.{Database}
use google_photos_picker.Postgres.Tokens.{TokenTable, load, pg_token_store}
use google_photos_picker.Postgres.Tokens.View.{view, IsValid}
use google_photos_picker.Postgres.Tokens.Saving.{kept}
use google_photos_picker.Postgres.Tokens.Keeping.{save-SaveContract}
use google_photos_picker.Postgres.Tokens.Contract.{read-ReadContract}
use google_photos_picker.Client.{Client, World, complete_consent}
use google_photos_picker.Client.Consent.{IsGranted, complete_consent_renewed}

module _ {J X : Type 0} (sys : System X) (lib : Oauth2 X) (readers : Readers) (db : Database X)
    (box : Box) (c : Client TokenTable J X) where
  -- Over PostgreSQL, an authenticated cipher and a random source that fills its buffers: where a callback
  -- succeeds and Google gives no refresh token, whatever a load gave for the user before, every load after
  -- that succeeds gives the same refresh token, with the new access token, expiry and scopes.
  pub load-complete_consent :
      IsAead box.aead
      → FillsBuffer sys
      → c.tokens ≡ pg_token_store sys db box
      → (ctx earlier later : Context X) (state code user_id : String) (tok : Token)
        (w : World TokenTable J X) (x y : X) (old new : TokenRecord)
      → IsValid box w.tokens
      → (load db box earlier user_id (w.tokens, x)).0 ≡ ok old
      → (complete_consent sys lib readers c ctx state code w).0 ≡ ok user_id
      → (lib.exchange c.oauth ctx code w.env).0 ≡ ok tok
      → tok.refresh_token ≡ ""
      → (load db box later user_id
          ((complete_consent sys lib readers c ctx state code w).1.tokens, y)).0
        ≡ ok new
      → (scopes : Option (List String)) × IsGranted tok c.oauth.scopes scopes
        × (new ≡ record {
          user_id = user_id;
          refresh_token = old.refresh_token;
          access_token = tok.access_token;
          expires_at = kept sys db box tok.expiry;
          scopes = scopes;
        })
  load-complete_consent law fills stored ctx earlier later state code user_id tok w x y old new
        valid before done given empty loaded =
      let saves : SaveContract c.tokens (IsValid box) (view box) (kept sys db box) =
        subst (λ ts. SaveContract ts (IsValid box) (view box) (kept sys db box)) (sym stored)
          (save-SaveContract sys db box law fills) in
      let reads = read-ReadContract sys db box in
      let (scopes, are_granted, seen) =
        complete_consent_renewed sys lib readers c ctx state code w (IsValid box) (view box)
          (kept sys db box) saves user_id tok done given old valid empty
          (reads.loaded earlier user_id old w.tokens x before) in
      let after = (complete_consent sys lib readers c ctx state code w).1.tokens in
      (
        scopes,
        are_granted,
        ok_inj (some_inj (sym (reads.loaded later user_id new after y loaded) ∙ seen)),
      )
    where
      some_inj : {A : Type 0} {a b : A} → some a ≡ some b → a ≡ b
      some_inj h = ground arith
