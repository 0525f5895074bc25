-- ===== src/Toy.antt =====
-- A small world to run the program in, and to show that what is assumed of its surroundings can hold.
-- The environment is the time of day; each call takes a second, and the network always answers.
use Prim.Native.String.{◌++◌ as join}
use google_photos_picker.Base.{
  ℕ, ◌+◌, ◌*◌, String, true, false, none, some, [], ◌∷◌, ◌==◌, second, if◌then◌else◌,
}
use google_photos_picker.Errors.{other}
use google_photos_picker.Exec.{ok, err, Context}
use google_photos_picker.Cryptobox.Toy.{clockwork, toy_box}
use google_photos_picker.OAuth.{OauthConfig, Token, Oauth2, google_photos_scope}
use google_photos_picker.Sink.{PhotoSink}
use google_photos_picker.Http.{Request, Response, HttpClient}
use google_photos_picker.Picker.{
  PickerSession, MediaItem, ListMediaItemsResponse, Readers, page_url,
}
use google_photos_picker.Postgres.Database.{Database}
use google_photos_picker.Postgres.Tokens.{TokenTable, pg_token_store}
use google_photos_picker.Postgres.Imports.{ImportTable, pg_import_store}
use google_photos_picker.Client.{Client, World, default_download_cap, default_max_decoded_bytes}
use google_photos_picker.StateStore.{new_state_store}

-- context.Background()
abbrev pub background : Context ℕ
background x = none

-- A context that was cancelled.
abbrev pub cancelled : Context ℕ
cancelled x = some "context canceled"

abbrev pub toy_database : Database ℕ
toy_database = record {
  round_trip = λ x. (none, x + second);
  lost_answer = λ x. none;
  accepts_text = λ text. true;
  now = λ x. x;
  new_uuid = λ x. ("job-1", x);
  timestamptz = λ t. t;
  locked = λ x id. false;
}

abbrev pub item : String → MediaItem
item name = record {
  id = name;
  media_file = record { base_url = name; mime_type = "image/jpeg"; filename = "photo.jpg" };
}

abbrev pub first_page : ListMediaItemsResponse
first_page = record { media_items = item "a" ∷ []; next_page_token = "p2" }

abbrev pub last_page : ListMediaItemsResponse
last_page = record { media_items = item "b" ∷ item "c" ∷ []; next_page_token = "" }

abbrev pub toy_session : PickerSession
toy_session = record {
  id = "s1";
  picker_uri = "https://photos.google.com/picker/s1";
  media_items_set = true;
  expire_time = "";
}

-- JSON in this world is a list of one number.
abbrev pub toy_readers : Readers
toy_readers = record {
  request_error = λ method url. none;
  text_of = λ bytes. "excerpt";
  session = λ body. ok toy_session;
  page = λ body. elim body.bytes [ [] ↦ ok last_page | _ ∷ _ ↦ ok first_page ];
  dimensions = λ bytes. some (2, 3);
  rfc3339 = λ text. none;
}

-- The item named "b" is missing at Google.
abbrev answer : Request → Response
answer req =
    if req.url == page_url "s1" ""
    then record { status = 200; body = record { bytes = 1 ∷ []; broken = none } }
    else if req.url == "b=d"
    then record { status = 404; body = record { bytes = []; broken = none } }
    else if req.url == page_url "s1" "p2"
    then record { status = 200; body = record { bytes = []; broken = none } }
    else record { status = 200; body = record { bytes = 7 ∷ 8 ∷ 9 ∷ []; broken = none } }

abbrev pub toy_http : HttpClient ℕ
toy_http = record {
  do_request = λ ctx req x. elim (ctx x) [
    | some text ↦ (err (other text), x + second)
    | none ↦ (ok (answer req), x + second)
  ];
}

abbrev pub toy_token : Token
toy_token = record {
  access_token = "ya29.new";
  refresh_token = "1//refresh";
  expiry = 10000 * second;
  scope = some google_photos_scope;
}

abbrev pub toy_oauth2 : Oauth2 ℕ
toy_oauth2 = record {
  auth_code_url = λ cfg state. join "https://accounts.google.com/o/oauth2/auth?state=" state;
  exchange = λ cfg ctx code x. (ok toy_token, x + second);
  refresh = λ cfg ctx refresh x. (ok toy_token, x + second);
}

abbrev pub toy_sink : PhotoSink ℕ
toy_sink = record {
  save_photo = λ ctx user_id job_id p x. (ok (join "saved/" p.google_media_id), x + second);
}

abbrev pub toy_config : OauthConfig
toy_config = record {
  client_id = "id";
  client_secret = "secret";
  redirect_url = "http://localhost/callback";
  scopes = google_photos_scope ∷ [];
  endpoint = record {
    auth_url = "https://accounts.google.com/o/oauth2/auth";
    token_url = "https://oauth2.googleapis.com/token";
  };
}

abbrev pub toy_client : Client TokenTable ImportTable ℕ
toy_client = record {
  oauth = toy_config;
  tokens = pg_token_store clockwork toy_database toy_box;
  imports = pg_import_store toy_database;
  sink = toy_sink;
  download_cap = default_download_cap;
  max_decoded_bytes = default_max_decoded_bytes;
  http_client = toy_http;
  now = λ x. x;
}

abbrev pub new_world : World TokenTable ImportTable ℕ
new_world = record { states = new_state_store; tokens = []; imports = []; revoking = []; env = 1 }
