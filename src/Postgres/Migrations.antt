-- ===== src/Postgres/Migrations.antt =====
-- postgres/migrate.go, `Migrate`. Goose keeps the name of its table, the files and the dialect in variables
-- of its package, and they are `GooseState`; what Goose does is a parameter.
use google_photos_picker.Base.{String, ◌≡◌, refl, Option, none, some}
use google_photos_picker.Errors.{wrap}
use google_photos_picker.Exec.{Result, ok, err, Exec, map_error}
use google_photos_picker.Exec.Inversion.{map_error_ok}
use google_photos_picker.Postgres.Database.{Database}

pub record GooseState (F : Type 0) : Type 0 where
  pub table_name : String
  pub base_fs : Option F
  pub dialect : String

pub record Goose (F X : Type 0) : Type 0 where
  pub knows : String → Result (Unit {0})  -- the check that SetDialect makes
  pub up : GooseState F → Database X → String → Exec X (Unit {0})

abbrev pub goose_default : String
goose_default = "goose_db_version"

abbrev pub own_table : String
own_table = "photopicker_schema_migrations"

module _ {F X : Type 0} (goose : Goose F X) (migrations : F) where
  abbrev begun : GooseState F → GooseState F
  begun g = record g { table_name = own_table; base_fs = some migrations }

  -- The two deferred calls.
  abbrev restored : GooseState F → GooseState F
  restored g = record g { table_name = goose_default; base_fs = none }

  abbrev migrate_up : Database X → Result (Unit {0}) → Exec (GooseState F × X) (Unit {0})
  migrate_up db (err e) (g, x) = (err (wrap "photopicker/postgres: set dialect" e), (restored g, x))
  migrate_up db (ok _) (g, x) =
      let g' = record g { dialect = "postgres" } in
      let (r, x') = goose.up g' db "migrations" x in
      (map_error (wrap "photopicker/postgres: migrate") r, (restored g', x'))

  -- `Migrate`
  unfoldable pub migrate : Database X → Exec (GooseState F × X) (Unit {0})
  migrate db (g, x) = migrate_up db (goose.knows "postgres") (begun g, x)

  -- How a migration has ended.
  pub record HasMigrated (db : Database X) (g : GooseState F) (x : X) (r : Result (Unit {0}))
      (g' : GooseState F) : Type 0 where
    pub table_back : g'.table_name ≡ goose_default
    pub files_gone : g'.base_fs ≡ none
    pub ran :
        r ≡ ok tt
        → (goose.up
            (record { table_name = own_table; base_fs = some migrations; dialect = "postgres" })
            db
            "migrations"
            x).0
          ≡ ok tt

  -- However a migration ends, Goose is left with its own table and without files; and one that succeeds has run
  -- the library's files under the library's table.
  pub migrate-HasMigrated :
      (db : Database X) (g : GooseState F) (x : X)
      → HasMigrated db g x (migrate db (g, x)).0 (migrate db (g, x)).1.0
  unfolding migrate
  migrate-HasMigrated db g x = go (goose.knows "postgres")
    where
      go :
          (k : Result (Unit {0}))
          → HasMigrated db g x (migrate_up db k (begun g, x)).0 (migrate_up db k (begun g, x)).1.0
      go (err e) = record { table_back = refl; files_gone = refl; ran = λ h. cc }
      go (ok _) = record { table_back = refl; files_gone = refl; ran = λ h. map_error_ok _ _ tt h }
