-- ===== src/Example/Tests.antt =====
-- The reference server in the toy world, and its theorems there.
use Prim.Native.String.{◌++◌ as join}
use google_photos_picker.Base.{
  ℕ, String, ◌≡◌, refl, some, none, List, [], ◌∷◌, ◌==◌, if◌then◌else◌, arith, second, pos, ◌+◌,
  lookup,
}
use google_photos_picker.Errors.{other as other_error}
use google_photos_picker.Exec.{Result, ok, err}
use google_photos_picker.Stores.{Metadata}
use google_photos_picker.Sink.{DownloadedPhoto}
use google_photos_picker.StateStore.{new_state_store}
use google_photos_picker.Cryptobox.{Aead, new_from_hex, new_box}
use google_photos_picker.Cryptobox.Hex.{decode_string, digit}
use google_photos_picker.Cryptobox.Toy.{clockwork, toy_box, toy_aead}
use google_photos_picker.OAuth.{new_oauth_config}
use google_photos_picker.Postgres.Tokens.{TokenTable, new_token_store, pg_token_store}
use google_photos_picker.Postgres.Imports.{ImportTable, pg_import_store}
use google_photos_picker.Postgres.Migrations.{
  GooseState, Goose, migrate, HasMigrated, migrate-HasMigrated,
}
use google_photos_picker.Client.{
  Client, new_client, default_download_cap, default_max_decoded_bytes,
}
use google_photos_picker.Handlers.{Handlers, new_handlers}
use google_photos_picker.Worker.{new_worker, default_poll_interval, default_job_timeout}
use google_photos_picker.Example.Paths.{
  has_slash, ext, clean, clean_elements, split_path, join_path,
}
use google_photos_picker.Example.Disk.{Files, local_sink, save_photo, extension, ext_from_mime}
use google_photos_picker.Example.Disk.Plain.{IsPlain, IsWritten, NamesFiles, save_photo-IsPlain}
use google_photos_picker.Example.Routes.{HttpRequest, route, dispatch}
use google_photos_picker.Example.Routes.Steps.{dispatch-nobody}
use google_photos_picker.Example.Setup.{
  Machine, Server, Settings, start, settings, require_env, open_migrated, assemble, build,
}
use google_photos_picker.Example.Setup.Wiring.{IsWired, IsOpened, start-IsWired}
use google_photos_picker.Toy.{
  toy_oauth2, toy_readers, toy_database, toy_http, toy_client, new_world, background,
}

-- Files here are never missing, and get one name.
abbrev toy_files : Files ℕ
toy_files = record {
  mkdir_all = λ path x. (ok tt, x + second);
  create = λ path x. (ok tt, x + second);
  copy = λ path bytes x. (ok tt, x + second);
  new_uuid = λ x. ("123e4567-e89b-12d3-a456-426614174000", x);
}

toy_files-NamesFiles : NamesFiles toy_files
unfolding has_slash
toy_files-NamesFiles = record { no_slash = λ x. refl; long = λ x. refl }

abbrev photo : DownloadedPhoto
photo = record {
  google_media_id = "a";
  filename = "a/../../b.png";
  mime_type = "image/jpeg";
  size = 1;
  bytes = 7 ∷ [];
  job_metadata = none;
}

alice-IsPlain : IsPlain "alice"
unfolding has_slash
alice-IsPlain = record { no_slash = refl; named = refl; not_here = refl; not_above = refl }

abbrev alices_photo : String
alices_photo = "photos/alice/123e4567-e89b-12d3-a456-426614174000.png"

saved :
    (save_photo toy_files "./photos" background "alice" "job-1" photo 1).0
    ≡ ok "photos/alice/123e4567-e89b-12d3-a456-426614174000.png"
unfolding save_photo extension ext has_slash ext_from_mime join_path clean clean_elements split_path
saved = refl

-- An id that is no plain name leads out of ./photos.
escaped :
    (save_photo toy_files "./photos" background "../../srv/www" "job-1" photo 1).0
    ≡ ok "../srv/www/123e4567-e89b-12d3-a456-426614174000.png"
unfolding save_photo extension ext has_slash ext_from_mime join_path clean clean_elements split_path
escaped = refl

save_photo-IsPlain_example :
    (file : String) × IsPlain file
    × (alices_photo ≡ join (join "photos" (join "/" "alice")) (join "/" file))
    × IsWritten toy_files
        (join "photos" (join "/" "alice"))
        alices_photo
        (7 ∷ [])
        1
        (save_photo toy_files "./photos" background "alice" "job-1" photo 1).1
save_photo-IsPlain_example =
    save_photo-IsPlain toy_files toy_files-NamesFiles background "alice" "job-1" photo 1
      alices_photo alice-IsPlain saved

abbrev toy_handlers : Handlers TokenTable ImportTable ℕ
toy_handlers = record {
  client = toy_client;
  callback = record { post_message_type = ""; target_origin = "*"; html_template = none };
  max_metadata_bytes = pos 4096;
  max_metadata_keys = pos 32;
}

abbrev no_envelope : List ℕ → Result Metadata
no_envelope bytes = err (other_error "not JSON")

abbrev to : String → HttpRequest ℕ
to path = record { context = background; method = "GET"; path = path; query = []; body = none }

dispatch-nobody_example :
    (dispatch clockwork toy_oauth2 toy_readers toy_handlers no_envelope
      (to "/sessions/s1")
      new_world).1
    ≡ new_world
unfolding lookup
dispatch-nobody_example =
    dispatch-nobody clockwork toy_oauth2 toy_readers toy_handlers no_envelope (to "/sessions/s1")
      new_world refl (unfold route in λ h. ground arith)

abbrev toy_goose : Goose String ℕ
toy_goose = record { knows = λ dialect. ok tt; up = λ g db dir x. (ok tt, x + second) }

abbrev goose_state : GooseState String
goose_state = record { table_name = "my_versions"; base_fs = some "my files"; dialect = "postgres" }

migrate-HasMigrated_example :
    HasMigrated toy_goose "library files" toy_database goose_state 1
      (migrate toy_goose "library files" toy_database (goose_state, 1)).0
      (migrate toy_goose "library files" toy_database (goose_state, 1)).1.0
migrate-HasMigrated_example =
    migrate-HasMigrated toy_goose "library files" toy_database goose_state 1

abbrev toy_machine : Machine String ℕ
toy_machine = record {
  getenv = λ key.
      if key == "GOOGLE_ENCRYPTION_KEY"
      then "000102030405060708090a0b0c0d0e0f101112131415161718191A1B1C1D1E1F"
      else "x";
  open_database = λ dsn x. (ok toy_database, x);
  ping = λ db x. (ok tt, x + second);
  goose = toy_goose;
  goose_state = goose_state;
  migrations = "library files";
  files = toy_files;
}

abbrev toy_settings : Settings
toy_settings = record {
  client_id = "x";
  client_secret = "x";
  redirect_url = "x";
  enc_key = "000102030405060708090a0b0c0d0e0f101112131415161718191A1B1C1D1E1F";
  dsn = "x";
}

abbrev gcm : List ℕ → Result Aead
gcm key = ok toy_aead

abbrev started_client : Client TokenTable ImportTable ℕ
started_client = record {
  oauth = new_oauth_config toy_client.oauth.endpoint "x" "x" "x";
  tokens = pg_token_store clockwork toy_database toy_box;
  imports = pg_import_store toy_database;
  sink = local_sink toy_files "./photos";
  download_cap = default_download_cap;
  max_decoded_bytes = default_max_decoded_bytes;
  http_client = toy_http;
  now = clockwork.now;
}

abbrev server : Server ℕ
server = record {
  database = toy_database;
  states = new_state_store;
  handlers = record toy_handlers { client = started_client };
  worker = record {
    client = started_client;
    poll_interval = default_poll_interval;
    job_timeout = default_job_timeout;
  };
  addr = "x";
}

was_started : (start clockwork gcm toy_client.oauth.endpoint toy_http toy_machine 1).0 ≡ ok server
unfolding start settings require_env open_migrated migrate assemble build new_token_store
    new_from_hex new_box decode_string digit toy_box new_oauth_config new_client new_handlers
    new_worker
was_started = refl

start-IsWired_example :
    IsWired clockwork gcm toy_client.oauth.endpoint toy_http toy_machine server
    × IsOpened clockwork gcm toy_client.oauth.endpoint toy_http toy_machine 1 server.database
start-IsWired_example =
    start-IsWired clockwork gcm toy_client.oauth.endpoint toy_http toy_machine 1 server was_started
