-- ===== src/Service/Tests.antt =====
-- A day of the toy server, and the theorems of the service at it.
use google_photos_picker.Base.{
  ℕ, String, ◌≢◌, refl, none, List, [], ◌∷◌, ◌+◌, true, lookup, eq_iff, pos, arith, second,
}
use google_photos_picker.Exec.{ok}
use google_photos_picker.Cryptobox.Toy.{clockwork, clockwork-FillsBuffer, toy_box, toy_aead-IsAead}
use google_photos_picker.StateStore.{put_state, new_state_store}
use google_photos_picker.Postgres.Tokens.{TokenTable}
use google_photos_picker.Postgres.Imports.{ImportTable, new_row, start_row}
use google_photos_picker.Postgres.Imports.Reading.{whole_job}
use google_photos_picker.Stores.{ImportJob}
use google_photos_picker.Client.{World}
use google_photos_picker.Handlers.{Incoming, Handlers}
use google_photos_picker.Handlers.Access.{connecting, disconnecting, importing, serve}
use google_photos_picker.Worker.{process_job, default_poll_interval, default_job_timeout}
use google_photos_picker.Service.{
  worker, Event, served, called_back, drained, called, claims, succeeds, swept, revoked, closed,
  elapsed, run,
}
use google_photos_picker.Service.Isolation.{
  LeavesOthers, serve-LeavesOthers, process_job-LeavesOthers,
}
use google_photos_picker.Service.Consenting.{NoTokens, WithoutUser, run-NoTokens}
use google_photos_picker.Service.Soundness.{IsSound, run-IsSound}
use google_photos_picker.Base.{fields, insert, erase, ◌*◌, Option, some, ◌≡◌}
use google_photos_picker.Exec.{Result}
use google_photos_picker.OAuth.{Token, Oauth2, granted_scopes}
use google_photos_picker.Cryptobox.{seal, open_box}
use google_photos_picker.StateStore.{consume}
use google_photos_picker.Stores.{TokenRecord}
use google_photos_picker.Postgres.Tokens.{save, load, decrypt_row}
use google_photos_picker.Postgres.Tokens.View.{IsValid}
use google_photos_picker.Postgres.Tokens.Saving.{kept}
use google_photos_picker.Postgres.Tokens.Keeping.{save-SaveContract}
use google_photos_picker.Client.{complete_consent}
use google_photos_picker.Client.Consent.{IsGranted}
use google_photos_picker.Service.Renewing.{load-complete_consent}
use google_photos_picker.Toy.{
  toy_token, toy_client, toy_oauth2, toy_readers, toy_database, new_world, background,
}

abbrev toy_handlers : Handlers TokenTable ImportTable ℕ
toy_handlers = record {
  client = toy_client;
  callback = record { post_message_type = ""; target_origin = ""; html_template = none };
  max_metadata_bytes = pos 4096;
  max_metadata_keys = pos 32;
}

abbrev request : String → Incoming ℕ
request user_id = record {
  context = background;
  user = ok user_id;
  id = "s1";
  query = ("state", "st") ∷ ("code", "c") ∷ [];
  body = none;
}

-- Alice connects, comes back from Google and starts an import; the worker runs; she disconnects.
abbrev day :
    List (
      Event clockwork toy_oauth2 toy_readers toy_handlers default_poll_interval default_job_timeout)
day =
    served connecting (request "alice")
    ∷ elapsed (λ x. x + second)
    ∷ called_back (request "nobody")
    ∷ served (importing (λ bytes. ok none)) (request "alice")
    ∷ swept true
    ∷ called (claims background)
    ∷ called (succeeds background "job-1" "saved/a")
    ∷ drained 3 5 background
    ∷ served disconnecting (request "alice")
    ∷ revoked
    ∷ closed
    ∷ []

-- Alice has a job that is running.
abbrev world : World TokenTable ImportTable ℕ
world = record new_world {
  states = put_state "st" "alice" 1 new_state_store;
  imports = ("job-1", start_row 6 (new_row "alice" "s1" none 5)) ∷ [];
}

abbrev job : ImportJob
job = whole_job "job-1" (start_row 6 (new_row "alice" "s1" none 5))

not_bob : ◌≢◌ {A = String} "alice" "bob"
not_bob h = ground (arith, eq_iff "alice" "bob")

not_alice : ◌≢◌ {A = String} "bob" "alice"
not_alice h = ground (arith, eq_iff "bob" "alice")

serve-LeavesOthers_example :
    LeavesOthers clockwork toy_oauth2 toy_readers toy_database toy_box "bob" "alice" world
      (serve clockwork toy_oauth2 toy_readers toy_handlers disconnecting (request "bob") world).1
serve-LeavesOthers_example =
    serve-LeavesOthers clockwork toy_oauth2 toy_readers toy_database toy_box toy_handlers refl refl
      (request "bob") "bob" "alice" refl not_alice disconnecting world

process_job-LeavesOthers_example :
    LeavesOthers clockwork toy_oauth2 toy_readers toy_database toy_box "alice" "bob" world
      (process_job clockwork toy_oauth2 toy_readers
        (worker clockwork toy_oauth2 toy_readers toy_handlers default_poll_interval
          default_job_timeout)
        5
        background
        job
        world).1
unfolding lookup
process_job-LeavesOthers_example =
    process_job-LeavesOthers clockwork toy_oauth2 toy_readers toy_database toy_box
      (worker clockwork toy_oauth2 toy_readers toy_handlers default_poll_interval
        default_job_timeout)
      refl refl 5 background job "bob" world not_bob
      (λ row f. ground (arith, eq_iff "job-1" "job-1"))

run-NoTokens_example :
    let w =
      run clockwork toy_oauth2 toy_readers toy_handlers default_poll_interval default_job_timeout
        day new_world in
    NoTokens "bob" w.tokens × WithoutUser "bob" w.states
unfolding lookup
run-NoTokens_example =
    run-NoTokens clockwork toy_oauth2 toy_readers toy_database toy_box toy_handlers
      default_poll_interval default_job_timeout refl refl "bob" day
      (
        (λ same h. ground (arith, not_bob)),
        ((λ same h. ground (arith, not_bob)), ((λ same h. ground (arith, not_bob)), tt)),
      )
      new_world refl (tt, λ state e f. ground arith)

run-IsSound_example : IsSound toy_box (
    run clockwork toy_oauth2 toy_readers toy_handlers default_poll_interval default_job_timeout day
      new_world)
unfolding toy_box lookup
run-IsSound_example =
    run-IsSound clockwork toy_oauth2 toy_readers toy_database toy_box toy_handlers
      default_poll_interval default_job_timeout toy_aead-IsAead clockwork-FillsBuffer refl refl day
      new_world
      (record {
        states = tt;
        tokens = record { sealed = λ user_id row f. ground arith };
        imports = record { unique = tt; rows = λ id row f. ground arith };
      })

-- Alice, who is connected, comes back from Google once more, and Google gives no refresh token.
abbrev first : Result String × World TokenTable ImportTable ℕ
first =
    complete_consent clockwork toy_oauth2 toy_readers toy_client background "st" "code"
      (record new_world { states = put_state "st" "alice" 1 new_state_store })

abbrev connected : World TokenTable ImportTable ℕ
connected = record first.1 { states = put_state "st2" "alice" 1 first.1.states }

abbrev renewed_token : Token
renewed_token = record toy_token { refresh_token = ""; access_token = "ya29.second" }

abbrev renewing : Oauth2 ℕ
renewing = record toy_oauth2 { exchange = λ cfg ctx code x. (ok renewed_token, x + second) }

abbrev again : Result String × World TokenTable ImportTable ℕ
again = complete_consent clockwork renewing toy_readers toy_client background "st2" "code" connected

abbrev old_record : TokenRecord
old_record = record {
  user_id = "alice";
  refresh_token = "1//refresh";
  access_token = "ya29.new";
  expires_at = 10000 * second;
  scopes = some ("https://www.googleapis.com/auth/photospicker.mediaitems.readonly" ∷ []);
}

abbrev new_record : TokenRecord
new_record = record old_record { access_token = "ya29.second" }

runs : Unit {0}
unfolding complete_consent put_state consume lookup insert erase save seal clockwork toy_box
    granted_scopes load decrypt_row open_box fields
runs = tt

had : (load toy_database toy_box background "alice" (connected.tokens, 1)).0 ≡ ok old_record
unfolding runs
had = refl

comes_back : again.0 ≡ ok "alice"
unfolding runs
comes_back = refl

has : (load toy_database toy_box background "alice" (again.1.tokens, 9)).0 ≡ ok new_record
unfolding runs
has = refl

connected-IsValid : IsValid toy_box connected.tokens
unfolding runs
connected-IsValid =
    (save-SaveContract clockwork toy_database toy_box toy_aead-IsAead clockwork-FillsBuffer).valid
      background (record old_record { expires_at = 10000 * second }) [] (1 + second)
      (record { sealed = λ user_id row f. ground arith })

load-complete_consent_example :
    (scopes : Option (List String)) × IsGranted renewed_token toy_client.oauth.scopes scopes
    × (new_record ≡ record {
      user_id = "alice";
      refresh_token = "1//refresh";
      access_token = "ya29.second";
      expires_at = kept clockwork toy_database toy_box (10000 * second);
      scopes = scopes;
    })
unfolding toy_box
load-complete_consent_example =
    load-complete_consent clockwork renewing toy_readers toy_database toy_box toy_client
      toy_aead-IsAead clockwork-FillsBuffer refl background background background "st2" "code"
      "alice" renewed_token connected 1 9 old_record new_record connected-IsValid had comes_back
      refl refl has
