-- ===== src/Client/Tests.antt =====
-- The theorems of the client in the toy world, over the stores in PostgreSQL.
use google_photos_picker.Base.{
  fields, Option, List, ℕ, String, ◌≡◌, ◌≢◌, ◌↔◌, refl, some, true, false, [], ◌∷◌, lookup, insert,
  erase, ◌+◌, ◌*◌, second, eq_iff, arith,
}
use google_photos_picker.Errors.{sentinel, invalid_state, no_tokens}
use google_photos_picker.Exec.{Result, ok, err}
use google_photos_picker.Cryptobox.{seal, open_box}
use google_photos_picker.Cryptobox.Toy.{clockwork, clockwork-FillsBuffer, toy_box, toy_aead-IsAead}
use google_photos_picker.StateStore.{put_state, consume, new_state_store}
use google_photos_picker.Stores.Contract.{TokenContract}
use google_photos_picker.OAuth.{granted_scopes}
use google_photos_picker.Postgres.Tokens.{
  TokenTable, load, save, delete, update_access, decrypt_row, pg_token_store,
}
use google_photos_picker.Postgres.Tokens.View.{view, IsValid}
use google_photos_picker.Postgres.Tokens.Saving.{kept}
use google_photos_picker.Postgres.Tokens.Contract.{pg_token_store-TokenContract}
use google_photos_picker.Postgres.Imports.{ImportTable}
use google_photos_picker.Client.{
  World, SessionPhase, complete_consent, granted_record, disconnect, access_token, session_phase,
  new_client,
}
use google_photos_picker.Client.Consent.{
  IsGranted, complete_consent-complete_consent, complete_consent_ok,
}
use google_photos_picker.Client.Disconnecting.{Disconnected, disconnect-Disconnected}
use google_photos_picker.Client.Access.{Served, access_token-Served}
use google_photos_picker.Client.Sessions.{IsPastDeadline, session_phase_iff}
use google_photos_picker.Toy.{
  toy_client, toy_oauth2, toy_readers, toy_database, toy_token, toy_session, new_world, background,
}

run : Unit {0}
unfolding complete_consent put_state consume lookup insert erase save seal clockwork toy_box
    granted_scopes load decrypt_row open_box delete update_access access_token disconnect view
    fields session_phase new_client
run = tt

-- Alice has been sent to Google.
abbrev asked : World TokenTable ImportTable ℕ
asked = record new_world { states = put_state "st" "alice" 1 new_state_store }

abbrev answered : Result String × World TokenTable ImportTable ℕ
answered = complete_consent clockwork toy_oauth2 toy_readers toy_client background "st" "code" asked

done : answered.0 ≡ ok "alice"
unfolding run
done = refl

abbrev alice : String
alice = "alice"

alice-ne-bob : alice ≢ "bob"
alice-ne-bob h = ground (arith, eq_iff "alice" "bob")

toy_contract :
    TokenContract
      (pg_token_store clockwork toy_database toy_box)
      (IsValid toy_box)
      (view toy_box)
      (kept clockwork toy_database toy_box)
unfolding toy_box
toy_contract =
    pg_token_store-TokenContract clockwork toy_database toy_box toy_aead-IsAead
      clockwork-FillsBuffer (λ x. refl)

complete_consent-complete_consent_example :
    let again =
      complete_consent clockwork toy_oauth2 toy_readers toy_client background "st" "other"
        answered.1 in
    (again.0 ≡ err (sentinel invalid_state)) × (again.1.tokens ≡ answered.1.tokens)
complete_consent-complete_consent_example =
    complete_consent-complete_consent clockwork toy_oauth2 toy_readers toy_client background "st"
      "code" asked background "other" answered.1 refl

complete_consent_ok_example :
    ((consume "st" 1 asked.states).0 ≡ some "alice")
    × ((scopes : Option (List String)) × IsGranted toy_token toy_client.oauth.scopes scopes
        × (view toy_box answered.1.tokens "alice"
            ≡ some (
                ok (record {
                  user_id = "alice";
                  refresh_token = "1//refresh";
                  access_token = "ya29.new";
                  expires_at = kept clockwork toy_database toy_box (10000 * second);
                  scopes = scopes;
                }))))
    × (view toy_box answered.1.tokens "bob" ≡ view toy_box [] "bob")
unfolding clockwork
complete_consent_ok_example =
    complete_consent_ok clockwork toy_oauth2 toy_readers toy_client background "st" "code" asked
      (IsValid toy_box) (view toy_box) (kept clockwork toy_database toy_box) toy_contract.saves
      "alice" toy_token done refl "bob" (λ h. ground (arith, eq_iff "1//refresh" "")) alice-ne-bob

-- Alice, connected before.
abbrev connected : World TokenTable ImportTable ℕ
connected = record answered.1 { states = put_state "st2" "alice" 1 answered.1.states }

empty-IsValid : IsValid toy_box []
unfolding run
empty-IsValid = record { sealed = λ user_id row e. ground arith }

connected-IsValid : IsValid toy_box connected.tokens
unfolding run
connected-IsValid =
    toy_contract.saves.valid background
      (granted_record clockwork toy_oauth2 toy_readers toy_client "alice" toy_token) [] (1 + second)
      empty-IsValid

disconnect-Disconnected_example :
    Disconnected clockwork toy_oauth2 toy_readers toy_client background "alice" connected
      (IsValid toy_box)
      (view toy_box)
      (kept clockwork toy_database toy_box)
      toy_contract
      connected-IsValid
    × (view toy_box
          (disconnect clockwork toy_oauth2 toy_readers toy_client background "alice"
            connected).1.tokens
          "bob"
        ≡ view toy_box connected.tokens "bob")
disconnect-Disconnected_example =
    disconnect-Disconnected clockwork toy_oauth2 toy_readers toy_client background "alice" connected
      (IsValid toy_box) (view toy_box) (kept clockwork toy_database toy_box) toy_contract
      connected-IsValid "bob" alice-ne-bob

-- The refresh token of a user who disconnects is on its way to be revoked.
revoked :
    (disconnect clockwork toy_oauth2 toy_readers toy_client background "alice" connected).1.revoking
    ≡ "1//refresh" ∷ []
unfolding run
revoked = refl

-- Long after, the stored token is stale, and Google is asked for another.
abbrev late : TokenTable × ℕ
late = (connected.tokens, 20000 * second)

abbrev refreshed : Result String × (TokenTable × ℕ)
refreshed = access_token clockwork toy_oauth2 toy_readers toy_client background "alice" late

given : refreshed ≡ (ok "ya29.new", refreshed.1)
unfolding run
given = refl

access_token-Served_example :
    Served clockwork toy_oauth2 toy_readers toy_client background "alice" late
      (IsValid toy_box)
      (view toy_box)
      (kept clockwork toy_database toy_box)
      toy_contract
      connected-IsValid
      "ya29.new"
      refreshed.1.0
    × (view toy_box refreshed.1.0 "bob" ≡ view toy_box connected.tokens "bob")
access_token-Served_example =
    access_token-Served clockwork toy_oauth2 toy_readers toy_client background "alice" late
      (IsValid toy_box) (view toy_box) (kept clockwork toy_database toy_box) toy_contract
      connected-IsValid "ya29.new" "bob" refreshed.1 given alice-ne-bob

unknown_user : (load toy_database toy_box background "bob" late).0 ≡ err (sentinel no_tokens)
unfolding run
unknown_user = refl

session_phase_iff_example :
    ((session_phase clockwork toy_oauth2 toy_readers toy_client 5 toy_session ≡ SessionPhase.ready)
      ↔ (true ≡ true))
    × ((session_phase clockwork toy_oauth2 toy_readers toy_client 5 toy_session
          ≡ SessionPhase.expired)
        ↔ ((true ≡ false)
            × IsPastDeadline clockwork toy_oauth2 toy_readers toy_client 5 toy_session))
session_phase_iff_example =
    session_phase_iff clockwork toy_oauth2 toy_readers toy_client 5 toy_session
