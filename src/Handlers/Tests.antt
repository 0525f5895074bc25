-- ===== src/Handlers/Tests.antt =====
-- The theorems of the handlers in the toy world.
use google_photos_picker.Base.{
  ℕ, String, ◌≡◌, ◌≢◌, ◌↔◌, refl, some, none, List, [], ◌∷◌, lookup, eq_iff, pos, arith,
}
use google_photos_picker.Errors.{other as other_error}
use google_photos_picker.Exec.{Result, ok, err}
use google_photos_picker.Cryptobox.Toy.{clockwork}
use google_photos_picker.StateStore.{put_state, new_state_store}
use google_photos_picker.Stores.{Metadata}
use google_photos_picker.Postgres.Tokens.{TokenTable}
use google_photos_picker.Postgres.Imports.{ImportTable, new_row}
use google_photos_picker.Client.{World}
use google_photos_picker.Callback.{CallbackPage}
use google_photos_picker.Handlers.{
  Incoming, Handlers, callback, query_value, get_import_status, start_import_metadata,
}
use google_photos_picker.Handlers.Limits.{start_import_metadata_iff}
use google_photos_picker.Handlers.Imports.{code_of, get_import_status_other}
use google_photos_picker.Handlers.Replies.{consent, SaysSuccess, callback_success_iff}
use google_photos_picker.Toy.{
  toy_client, toy_oauth2, toy_readers, toy_database, new_world, background,
}

abbrev toy_page : CallbackPage
toy_page = record { post_message_type = ""; target_origin = ""; html_template = none }

abbrev toy_handlers : Handlers TokenTable ImportTable ℕ
toy_handlers = record {
  client = toy_client;
  callback = toy_page;
  max_metadata_bytes = pos 4;
  max_metadata_keys = pos 1;
}

abbrev request : Incoming ℕ
request = record {
  context = background;
  user = ok "bob";
  id = "job-1";
  query = ("state", "st") ∷ ("code", "c") ∷ [];
  body = some (record { bytes = 1 ∷ 2 ∷ []; broken = none });
}

abbrev stranger : Incoming ℕ
stranger = record request { user = err (other_error "no session") }

-- Alice has been sent to Google, and has a job.
abbrev world : World TokenTable ImportTable ℕ
world = record new_world {
  states = put_state "st" "alice" 1 new_state_store;
  imports = ("job-1", new_row "alice" "s1" none 5) ∷ [];
}

-- Any JSON here is one key.
abbrev one_key : List ℕ → Result Metadata
one_key bytes = ok (some (("album", "2024") ∷ []))

start_import_metadata_iff_example :
    start_import_metadata one_key (pos 4) (pos 1) request.body ≡ ok (some (("album", "2024") ∷ []))
start_import_metadata_iff_example =
    (start_import_metadata_iff one_key 4 1 (record { bytes = 1 ∷ 2 ∷ []; broken = none })
        (("album", "2024") ∷ []) (omega arith)).1
      (omega arith, refl, (λ h. ground arith), refl, omega arith)

alices : lookup "job-1" world.imports ≡ some (new_row "alice" "s1" none 5)
unfolding lookup
alices = refl

get_import_status_other_example :
    (code_of (get_import_status clockwork toy_oauth2 toy_readers toy_handlers request world).0
      ≢ 200)
    × ((get_import_status clockwork toy_oauth2 toy_readers toy_handlers request world).1.imports
        ≡ world.imports)
get_import_status_other_example =
    get_import_status_other clockwork toy_oauth2 toy_readers toy_handlers toy_database refl request
      "bob" (new_row "alice" "s1" none 5) world refl alices
      (λ h. ground (arith, eq_iff "alice" "bob"))

callback_success_iff_example :
    SaysSuccess clockwork toy_oauth2 toy_readers toy_handlers
      (callback clockwork toy_oauth2 toy_readers toy_handlers request world).0
    ↔ ((query_value request.query "error" ≡ "")
        × (query_value request.query "code" ≢ "")
        × (query_value request.query "state" ≢ "")
        × ((user_id : String) × (consent clockwork toy_oauth2 toy_readers toy_handlers request world
              ≡ ok user_id)))
callback_success_iff_example =
    callback_success_iff clockwork toy_oauth2 toy_readers toy_handlers request world
