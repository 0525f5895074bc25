-- ===== src/Example/Setup/Wiring.antt =====
-- What a start of examples/minimal/main.go that succeeds has put together.
use google_photos_picker.Base.{
  ℕ, String, ◌≡◌, refl, sym, subst, ap, ◌∙◌, Bool, some, ◌||◌, true, false, List, ◌==◌, arith,
  eq_iff, ◌⊎◌,
}
use google_photos_picker.Errors.{Error, wrap}
use google_photos_picker.Exec.{Result, ok, err, lift, pure, wrapping, map_error, ◌>>=◌, ◌>>◌}
use google_photos_picker.Exec.Inversion.{ok_inj, ok≢err, bind_ok, map_error_ok}
use google_photos_picker.System.{System}
use google_photos_picker.OAuth.{Endpoint, new_oauth_config}
use google_photos_picker.Cryptobox.{Aead, Box, new_from_hex}
use google_photos_picker.Stores.{TokenStore}
use google_photos_picker.Http.{HttpClient}
use google_photos_picker.StateStore.{new_state_store}
use google_photos_picker.Postgres.Database.{Database}
use google_photos_picker.Postgres.Migrations.{migrate-HasMigrated}
use google_photos_picker.Postgres.Tokens.{TokenTable, pg_token_store, new_token_store}
use google_photos_picker.Postgres.Imports.{ImportTable, pg_import_store}
use google_photos_picker.Client.{Client, built, new_client}
use google_photos_picker.Handlers.{
  new_handlers, default_max_metadata_bytes, default_max_metadata_keys,
}
use google_photos_picker.Worker.{new_worker, default_poll_interval, default_job_timeout}
use google_photos_picker.Example.Disk.{local_sink}
use google_photos_picker.Example.Setup.{
  Machine, Server, Settings, not_set, require_env, settings, config, handlers_config, build,
  assemble, migrated, open_migrated, start, listen_addr,
}

module _ {F X : Type 0} (sys : System X) (aes_gcm : List ℕ → Result Aead) (google : Endpoint)
    (default_client : HttpClient X) (machine : Machine F X) where
  -- The database of POSTGRES_DSN was opened at x, answered, and then Goose ran the embedded files on it under
  -- the library's own table.
  pub record IsOpened (x : X) (db : Database X) : Type 0 where
    pub opened : (machine.open_database (machine.getenv "POSTGRES_DSN") x).0 ≡ ok db
    pub answers :
        (machine.ping db (machine.open_database (machine.getenv "POSTGRES_DSN") x).1).0 ≡ ok tt
    pub migrated :
        (machine.goose.up
          (record {
            table_name = "photopicker_schema_migrations";
            base_fs = some machine.migrations;
            dialect = "postgres";
          })
          db
          "migrations"
          (machine.ping db (machine.open_database (machine.getenv "POSTGRES_DSN") x).1).1).0
        ≡ ok tt

  -- The parts of the server, as they hang together.
  pub record IsWired (server : Server X) : Type 0 where
    pub box : Box
    pub keyed : new_from_hex aes_gcm (machine.getenv "GOOGLE_ENCRYPTION_KEY") ≡ ok box
    pub tokens : server.handlers.client.tokens ≡ pg_token_store sys server.database box
    pub imports : server.handlers.client.imports ≡ pg_import_store server.database
    pub sink : server.handlers.client.sink ≡ local_sink machine.files "./photos"
    pub shared : server.worker.client ≡ server.handlers.client
    pub states : server.states ≡ new_state_store

  module _ (s : Settings) (db : Database X) (box : Box) where
    abbrev client_of : Client TokenTable ImportTable X
    client_of =
        built default_client sys.now
          (config sys aes_gcm google default_client machine s (pg_token_store sys db box) db)
          (new_oauth_config google s.client_id s.client_secret s.redirect_url)
          (pg_token_store sys db box) (pg_import_store db) (local_sink machine.files "./photos")

    abbrev server_of : Server X
    server_of = record {
      database = db;
      states = new_state_store;
      handlers = record {
        client = client_of;
        callback = (handlers_config sys aes_gcm google default_client machine client_of).callback;
        max_metadata_bytes = default_max_metadata_bytes;
        max_metadata_keys = default_max_metadata_keys;
      };
      worker = record {
        client = client_of;
        poll_interval = default_poll_interval;
        job_timeout = default_job_timeout;
      };
      addr = listen_addr sys aes_gcm google default_client machine;
    }

    build_total :
        build sys aes_gcm google default_client machine s db (pg_token_store sys db box)
        ≡ ok server_of
    unfolding build new_oauth_config new_client new_handlers new_worker
    build_total = refl

    server_of-IsWired :
        new_from_hex aes_gcm (machine.getenv "GOOGLE_ENCRYPTION_KEY") ≡ ok box → IsWired server_of
    server_of-IsWired keyed = record {
      box = box;
      keyed = keyed;
      tokens = refl;
      imports = refl;
      sink = refl;
      shared = refl;
      states = refl;
    }

  settings_ok :
      (x : X) (s : Settings)
      → (settings sys aes_gcm google default_client machine x).0 ≡ ok s
      → machine.getenv "GOOGLE_ENCRYPTION_KEY" ≡ s.enc_key
  unfolding settings require_env
  settings_ok x s h = ground arith

  settings_dsn :
      (x : X) (s : Settings)
      → (settings sys aes_gcm google default_client machine x).0 ≡ ok s
      → (s.dsn ≡ machine.getenv "POSTGRES_DSN")
        × ((settings sys aes_gcm google default_client machine x).1 ≡ x)
  unfolding settings require_env
  settings_dsn x s h = ground arith

  open_migrated_ok :
      (s : Settings) (x : X) (db : Database X)
      → s.dsn ≡ machine.getenv "POSTGRES_DSN"
      → (open_migrated sys aes_gcm google default_client machine s x).0 ≡ ok db
      → IsOpened x db
  unfolding open_migrated
  open_migrated_ok s x db dsn h =
      let (db', opened, pinging) =
        bind_ok (wrapping (wrap "open db") (machine.open_database s.dsn))
          (λ db.
            wrapping (wrap "ping db") (machine.ping db)
            >> (wrapping (wrap "migrate") (migrated sys aes_gcm google default_client machine db)
                >> pure db))
          x db h in
      let (_, answers, migrating) =
        bind_ok (wrapping (wrap "ping db") (machine.ping db'))
          (λ _.
            wrapping (wrap "migrate") (migrated sys aes_gcm google default_client machine db')
            >> pure db')
          _ db pinging in
      let (_, done, same) =
        bind_ok (wrapping (wrap "migrate") (migrated sys aes_gcm google default_client machine db'))
          (λ _. pure db') _ db migrating in
      let whole : IsOpened x db' = record {
        opened = rw (← dsn) (map_error_ok (wrap "open db") _ _ opened);
        answers = rw (← dsn) (map_error_ok (wrap "ping db") _ _ answers);
        migrated = rw (← dsn) (
            (migrate-HasMigrated machine.goose machine.migrations db' machine.goose_state _).ran
              (map_error_ok (wrap "migrate") _ _ done));
      } in
      subst (IsOpened x) (ok_inj same) whole

  token_store_ok :
      (db : Database X) (key : String) (ts : TokenStore TokenTable X)
      → new_token_store sys db aes_gcm key ≡ ok ts
      → (box : Box) × (new_from_hex aes_gcm key ≡ ok box) × (pg_token_store sys db box ≡ ts)
  unfolding new_token_store
  token_store_ok db key ts h = go (new_from_hex aes_gcm key) refl
    where
      go :
          (k : Result Box)
          → new_from_hex aes_gcm key ≡ k
          → (box : Box) × (new_from_hex aes_gcm key ≡ ok box) × (pg_token_store sys db box ≡ ts)
      go (ok box) e =
          let made : new_token_store sys db aes_gcm key ≡ ok (pg_token_store sys db box) =
            rw (new_token_store, e) refl in
          (box, e, ok_inj (sym made ∙ h))
      go (err n) e =
          let refused : new_token_store sys db aes_gcm key ≡ err n = rw (new_token_store, e) refl in
          absurd (ok≢err (sym h ∙ refused))

  assemble_ok :
      (s : Settings) (db : Database X) (x : X) (server : Server X)
      → machine.getenv "GOOGLE_ENCRYPTION_KEY" ≡ s.enc_key
      → (assemble sys aes_gcm google default_client machine s db x).0 ≡ ok server
      → IsWired server × (server.database ≡ db)
  unfolding assemble
  assemble_ok s db x server given h =
      let (ts, stored, later) =
        bind_ok (lift (map_error (wrap "token store") (new_token_store sys db aes_gcm s.enc_key)))
          (λ ts.
            wrapping (wrap "create photos dir") (machine.files.mkdir_all "./photos")
            >> lift (build sys aes_gcm google default_client machine s db ts))
          x server h in
      let (_, made, last) =
        bind_ok (wrapping (wrap "create photos dir") (machine.files.mkdir_all "./photos"))
          (λ _. lift (build sys aes_gcm google default_client machine s db ts)) x server later in
      let (box, keyed, same) =
        token_store_ok db s.enc_key ts (map_error_ok (wrap "token store") _ ts stored) in
      let whole : server_of s db box ≡ server = ok_inj (
        sym (build_total s db box)
        ∙ ap (build sys aes_gcm google default_client machine s db) same
        ∙ last) in
      (
        subst IsWired whole (server_of-IsWired s db box (ap (new_from_hex aes_gcm) given ∙ keyed)),
        sym (ap (λ (server : Server X). server.database) whole),
      )

  -- A start that succeeds has opened the database of POSTGRES_DSN, which answered, and Goose has then run the
  -- embedded files on it under the library's table; and it has one client behind its handlers and its worker, with
  -- the two PostgreSQL stores over that database, the tokens sealed under the key of GOOGLE_ENCRYPTION_KEY, the
  -- photos saved under ./photos, and no state of the dance yet.
  pub start-IsWired :
      (x : X) (server : Server X)
      → (start sys aes_gcm google default_client machine x).0 ≡ ok server
      → IsWired server × IsOpened x server.database
  unfolding start
  start-IsWired x server h =
      let (s, read, later) =
        bind_ok (settings sys aes_gcm google default_client machine)
          (λ s. open_migrated sys aes_gcm google default_client machine s >>= λ db.
            assemble sys aes_gcm google default_client machine s db)
          x server h in
      let (db, opened, last) =
        bind_ok (open_migrated sys aes_gcm google default_client machine s)
          (λ db. assemble sys aes_gcm google default_client machine s db) _ server later in
      let (dsn, env_eq) = settings_dsn x s read in
      let (wired, same) = assemble_ok s db _ server (settings_ok x s read) last in
      let is_open : IsOpened x db = open_migrated_ok s x db dsn (rw env_eq at opened) in
      (wired, rw same is_open)

  abbrev IsMissing : String → Bool → Type 0
  IsMissing key unset = (machine.getenv key == "") ≡ unset

  settings_unset :
      (x : X) (a b c d e : Bool)
      → (a || b || c || d || e) ≡ true
      → IsMissing "GOOGLE_CLIENT_ID" a
      → IsMissing "GOOGLE_CLIENT_SECRET" b
      → IsMissing "GOOGLE_REDIRECT_URL" c
      → IsMissing "GOOGLE_ENCRYPTION_KEY" d
      → IsMissing "POSTGRES_DSN" e
      → (n : Error) × (settings sys aes_gcm google default_client machine x ≡ (err n, x))
  unfolding settings require_env
  settings_unset x true b c d e some_unset h i j k l =
      (not_set "GOOGLE_CLIENT_ID", rw (settings, require_env, h) refl)
  settings_unset x false true c d e some_unset h i j k l =
      (not_set "GOOGLE_CLIENT_SECRET", rw (settings, require_env, h, i) refl)
  settings_unset x false false true d e some_unset h i j k l =
      (not_set "GOOGLE_REDIRECT_URL", rw (settings, require_env, h, i, j) refl)
  settings_unset x false false false true e some_unset h i j k l =
      (not_set "GOOGLE_ENCRYPTION_KEY", rw (settings, require_env, h, i, j, k) refl)
  settings_unset x false false false false true some_unset h i j k l =
      (not_set "POSTGRES_DSN", rw (settings, require_env, h, i, j, k, l) refl)
  settings_unset x false false false false false some_unset h i j k l = cc

  -- Where one of the five variables is unset or empty, the start fails before it does anything.
  pub start_unset :
      (x : X)
      → (machine.getenv "GOOGLE_CLIENT_ID" ≡ "")
        ⊎ (machine.getenv "GOOGLE_CLIENT_SECRET" ≡ "")
        ⊎ (machine.getenv "GOOGLE_REDIRECT_URL" ≡ "")
        ⊎ (machine.getenv "GOOGLE_ENCRYPTION_KEY" ≡ "")
        ⊎ (machine.getenv "POSTGRES_DSN" ≡ "")
      → (e : Error) × (start sys aes_gcm google default_client machine x ≡ (err e, x))
  unfolding start
  start_unset x unset =
      let v = λ (key : String). eq_iff (machine.getenv key) "" in
      let (n, failed) =
        settings_unset x _ _ _ _ _
          (ground (
            arith,
            unset,
            v "GOOGLE_CLIENT_ID",
            v "GOOGLE_CLIENT_SECRET",
            v "GOOGLE_REDIRECT_URL",
            v "GOOGLE_ENCRYPTION_KEY",
            v "POSTGRES_DSN",
          ))
          refl refl refl refl refl in
      (n, rw (start, failed) refl)
