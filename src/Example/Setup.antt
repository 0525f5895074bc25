-- ===== src/Example/Setup.antt =====
-- How examples/minimal/main.go starts: `log.Fatalf` is the error that ends the start.
pub mod Wiring
pub mod Serving
use Prim.Native.String.{◌++◌ as join}
use google_photos_picker.Base.{
  ℕ, String, Bool, true, false, Option, none, some, List, ◌==◌, if◌then◌else◌, pos,
}
use google_photos_picker.Errors.{Error, other, wrap}
use google_photos_picker.Exec.{
  Result, ok, err, Exec, pure, lift, map_error, wrapping, continue, ◌>>=◌, ◌>>◌,
}
use google_photos_picker.System.{System}
use google_photos_picker.OAuth.{Endpoint, new_oauth_config}
use google_photos_picker.Cryptobox.{Aead}
use google_photos_picker.Http.{HttpClient}
use google_photos_picker.Stores.{TokenStore}
use google_photos_picker.StateStore.{StateStore}
use google_photos_picker.Postgres.Database.{Database}
use google_photos_picker.Postgres.Migrations.{Goose, GooseState, migrate}
use google_photos_picker.Postgres.Tokens.{TokenTable, new_token_store}
use google_photos_picker.Postgres.Imports.{ImportTable, pg_import_store}
use google_photos_picker.Client.{Client, Config, new_client}
use google_photos_picker.Handlers.{Handlers, HandlersConfig, new_handlers}
use google_photos_picker.Worker.{Worker, new_worker}
use google_photos_picker.Example.Disk.{Files, local_sink}

-- What the start asks of the operating system and of the database.
pub record Machine (F X : Type 0) : Type 0 where
  pub getenv : String → String
  pub open_database : String → Exec X (Database X)  -- sql.Open
  pub ping : Database X → Exec X (Unit {0})
  pub goose : Goose F X
  pub goose_state : GooseState F  -- as the process begins
  pub migrations : F  -- the embedded files
  pub files : Files X

pub record Settings : Type 0 where
  pub client_id : String
  pub client_secret : String
  pub redirect_url : String
  pub enc_key : String
  pub dsn : String

pub record Server (X : Type 0) : Type 0 where
  pub database : Database X
  pub states : StateStore
  pub handlers : Handlers TokenTable ImportTable X
  pub worker : Worker TokenTable ImportTable X
  pub addr : String

abbrev pub not_set : String → Error
not_set key = other (join "required environment variable " (join key " is not set"))

module _ {F X : Type 0} (sys : System X) (aes_gcm : List ℕ → Result Aead) (google : Endpoint)
    (default_client : HttpClient X) (machine : Machine F X) where
  -- `requireEnv`
  unfoldable pub require_env : String → Result String
  require_env key = let v = machine.getenv key in if v == "" then err (not_set key) else ok v

  -- The variables that are required, in the order in which they are read.
  unfoldable pub settings : Exec X Settings
  settings = do
    client_id ← lift (require_env "GOOGLE_CLIENT_ID")
    client_secret ← lift (require_env "GOOGLE_CLIENT_SECRET")
    redirect_url ← lift (require_env "GOOGLE_REDIRECT_URL")
    enc_key ← lift (require_env "GOOGLE_ENCRYPTION_KEY")
    dsn ← lift (require_env "POSTGRES_DSN")
    pure (record {
      client_id = client_id;
      client_secret = client_secret;
      redirect_url = redirect_url;
      enc_key = enc_key;
      dsn = dsn;
    })

  abbrev pub listen_addr : String
  listen_addr = let addr = machine.getenv "LISTEN_ADDR" in if addr == "" then ":8080" else addr

  -- `ppg.Migrate`, with Goose as it is at the start of the process.
  abbrev pub migrated : Database X → Exec X (Unit {0})
  migrated db x =
      let (r, (_, x')) = migrate machine.goose machine.migrations db (machine.goose_state, x) in
      (r, x')

  -- `photopicker.New(photopicker.Config{…})`
  abbrev pub config :
      Settings → TokenStore TokenTable X → Database X → Config TokenTable ImportTable X
  config s token_store db = record {
    oauth = some (new_oauth_config google s.client_id s.client_secret s.redirect_url);
    token_store = some token_store;
    import_store = some (pg_import_store db);
    sink = some (local_sink machine.files "./photos");
    download_cap = pos 0;
    max_decoded_bytes = pos 0;
    http_client = none;
    clock = none;
  }

  -- `photopicker.NewHandlers(photopicker.HandlersConfig{…})`
  abbrev pub handlers_config :
      Client TokenTable ImportTable X → HandlersConfig TokenTable ImportTable X
  handlers_config client = record {
    client = some client;
    resolves = true;
    callback = record { post_message_type = ""; target_origin = "*"; html_template = none };
    max_metadata_bytes = pos 0;
    max_metadata_keys = pos 0;
  }

  -- The client, the handlers and the worker, over the stores.
  unfoldable pub build : Settings → Database X → TokenStore TokenTable X → Result (Server X)
  unfolding new_oauth_config new_client new_handlers new_worker
  build s db token_store =
      elim (map_error (wrap "photopicker client")
        (new_client default_client sys.now (config s token_store db))) [
          | err e ↦ err e
          | ok (client, states) ↦
              elim (map_error (wrap "handlers") (new_handlers (handlers_config client))) [
                | err e ↦ err e
                | ok handlers ↦
                    elim (map_error (wrap "worker") (
                      new_worker (record {
                        client = some client;
                        poll_interval = pos 0;
                        job_timeout = pos 0;
                      }))) [
                        | err e ↦ err e
                        | ok worker ↦ ok (record {
                          database = db;
                          states = states;
                          handlers = handlers;
                          worker = worker;
                          addr = listen_addr;
                        })
                      ]
              ]
        ]

  -- `main` from the stores to the worker.
  unfoldable pub assemble : Settings → Database X → Exec X (Server X)
  assemble s db = do
    token_store ← lift (map_error (wrap "token store") (new_token_store sys db aes_gcm s.enc_key))
    wrapping (wrap "create photos dir") (machine.files.mkdir_all "./photos")
    lift (build s db token_store)

  -- The database, opened, answering and migrated.
  unfoldable pub open_migrated : Settings → Exec X (Database X)
  open_migrated s = do
    db ← wrapping (wrap "open db") (machine.open_database s.dsn)
    wrapping (wrap "ping db") (machine.ping db)
    wrapping (wrap "migrate") (migrated db)
    pure db

  -- `main`, up to the routes.
  unfoldable pub start : Exec X (Server X)
  start = do s ← settings; db ← open_migrated s; assemble s db
