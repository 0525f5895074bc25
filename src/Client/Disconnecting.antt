-- ===== src/Client/Disconnecting.antt =====
-- `Disconnect`: what is left of a user's tokens, and what is revoked at Google.
use google_photos_picker.Base.{
  ℕ, String, ◌≡◌, ◌≢◌, sym, ap, ◌∙◌, Option, none, some, List, ◌∷◌, ◌==◌, inl, inr, if◌then◌else◌,
  arith,
}
use google_photos_picker.Errors.{Error, no_tokens, is}
use google_photos_picker.Exec.{Result, ok, err, Context, Result-cases}
use google_photos_picker.System.{System}
use google_photos_picker.OAuth.{Oauth2}
use google_photos_picker.Picker.{Readers}
use google_photos_picker.Stores.{TokenRecord}
use google_photos_picker.Stores.Contract.{TokenContract}
use google_photos_picker.Client.{Client, World, disconnect}

-- The goroutine that is started for a refresh token, if there is one.
abbrev pub with_revocation : String → List String → List String
with_revocation refresh started = if refresh == "" then started else refresh ∷ started

module _ {T J X : Type 0} (sys : System X) (lib : Oauth2 X) (readers : Readers) (c : Client T J X)
    (ctx : Context X) (user_id : String) (w : World T J X) where
  abbrev deleting : Result String × (T × X)
  deleting = c.tokens.delete ctx user_id (w.tokens, w.env)

  abbrev ended : Result (Unit {0}) × World T J X
  ended = disconnect sys lib readers c ctx user_id w

  disconnect_deleted :
      (refresh : String)
      → deleting.0 ≡ ok refresh
      → (ended.0 ≡ ok tt)
        × (ended.1.tokens ≡ deleting.1.0)
        × (ended.1.revoking ≡ with_revocation refresh w.revoking)
  unfolding disconnect
  disconnect_deleted refresh h = ground arith

  disconnect_failed :
      (e : Error)
      → deleting.0 ≡ err e
      → (ended.0 ≡ (if is e no_tokens then ok tt else err e))
        × (ended.1.tokens ≡ deleting.1.0)
        × (ended.1.revoking ≡ w.revoking)
  unfolding disconnect
  disconnect_failed e h = ground arith

  module _ (Valid : T → Type 0) (view : T → String → Option (Result TokenRecord)) (kept : ℕ → ℕ)
      (law : TokenContract c.tokens Valid view kept) (valid : Valid w.tokens) where
    -- What a disconnect can leave behind: the record of the user is gone and its refresh token is on its
    -- way to be revoked; or there was nothing to delete, or the deletion failed, and all is as before.
    pub data Disconnected : Type 0 where
      erased :
          (rec : TokenRecord)
          → view w.tokens user_id ≡ some (ok rec)
          → ended.0 ≡ ok tt
          → view ended.1.tokens user_id ≡ none
          → ended.1.revoking ≡ with_revocation rec.refresh_token w.revoking
          → Disconnected
      unchanged :
          (e : Error)
          → deleting.0 ≡ err e
          → ended.0 ≡ (if is e no_tokens then ok tt else err e)
          → ended.1.tokens ≡ w.tokens
          → ended.1.revoking ≡ w.revoking
          → Disconnected

    -- Over a token store that keeps its contract, in a valid state: a disconnect deletes the record of the
    -- user and sends its refresh token, if it has one, to be revoked; or the deletion failed, and all is
    -- as before, which is no error where there were no tokens. Every other user is left alone.
    pub disconnect-Disconnected :
        (other : String)
        → user_id ≢ other
        → Disconnected × (view ended.1.tokens other ≡ view w.tokens other)
    disconnect-Disconnected other ne = elim (Result-cases deleting.0) [
      | inl (refresh, removed) ↦
          let (good, tokens_eq, revoking_eq) = disconnect_deleted refresh removed in
          let (rec, had, same, left) =
            law.deletes.deleted ctx user_id refresh w.tokens w.env valid removed in
          (
            erased rec had good (rw tokens_eq left)
                (revoking_eq ∙ ap (λ s. with_revocation s w.revoking) (sym same)),
            rw tokens_eq (law.deletes.others ctx user_id w.tokens w.env other valid ne),
          )
      | inr (e, failed) ↦
          let (result, tokens_eq, revoking_eq) = disconnect_failed e failed in
          let same = tokens_eq ∙ law.failures.deleting ctx user_id w.tokens w.env e valid failed in
          (unchanged e failed result same revoking_eq, ap (λ t. view t other) same)
    ]
