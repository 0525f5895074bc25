-- ===== src/Postgres/Tokens/Table.antt =====
-- The table photopicker_oauth_tokens (postgres/schema.go) and the statements of postgres/tokens.go on it.
use google_photos_picker.Base.{
  ℕ, String, Option, none, some, List, StringMap, lookup, insert, erase, eqb, if◌then◌else◌,
}
use google_photos_picker.Errors.{Error, sentinel, no_tokens, wrap, is, sql_no_rows}
use google_photos_picker.Exec.{Result, ok, err, Exec, map_error}
use google_photos_picker.Cryptobox.{Box, open_box}
use google_photos_picker.Stores.{TokenRecord}
use google_photos_picker.Postgres.Database.{fits_varchar, value_too_long, not_null_violation}

pub record TokenRow : Type 0 where
  pub refresh_token : List ℕ
  pub access_token : List ℕ
  pub expires_at : Option ℕ
  pub scopes : List String
  pub created_at : ℕ
  pub updated_at : ℕ

abbrev pub TokenTable : Type 0
TokenTable = StringMap TokenRow

-- `var expiry any`: NULL for the zero time
abbrev pub nullable : (ℕ → ℕ) → ℕ → Option ℕ
nullable timestamptz t = if eqb t 0 then none else some (timestamptz t)

-- UPDATE … SET access_token, expires_at, scopes WHERE user_id: no row, no effect. `pq.Array` of a
-- nil slice is NULL, which the column refuses.
abbrev pub updated_row :
    Option TokenRow → String → List ℕ → Option ℕ → ℕ → List String → TokenTable → TokenTable
updated_row none user_id access expiry now scopes t = t
updated_row (some row) user_id access expiry now scopes t =
    insert user_id
      (record row { access_token = access; expires_at = expiry; scopes = scopes; updated_at = now })
      t

abbrev pub update_tokens :
    String → List ℕ → Option ℕ → ℕ → Option (List String) → Exec TokenTable (Unit {0})
update_tokens user_id access expiry now (some scopes) t =
    (ok tt, updated_row (lookup user_id t) user_id access expiry now scopes t)
update_tokens user_id access expiry now none t = elim (lookup user_id t) [
  | none ↦ (ok tt, t)
  | some _ ↦ (err not_null_violation, t)
]

abbrev pub row_created : Option TokenRow → ℕ → ℕ
row_created none now = now
row_created (some row) now = row.created_at

-- INSERT … ON CONFLICT (user_id) DO UPDATE
abbrev pub upsert_tokens :
    String → List ℕ → List ℕ → Option ℕ → ℕ → Option (List String) → Exec TokenTable (Unit {0})
upsert_tokens user_id refresh access expiry now none t = (err not_null_violation, t)
upsert_tokens user_id refresh access expiry now (some scopes) t =
    if fits_varchar 255 user_id
    then (
      ok tt,
      insert user_id
          (record {
            refresh_token = refresh;
            access_token = access;
            expires_at = expiry;
            scopes = scopes;
            created_at = row_created (lookup user_id t) now;
            updated_at = now;
          })
          t,
    )
    else (err value_too_long, t)

abbrev pub select_row : String → Exec TokenTable TokenRow
select_row user_id t = elim (lookup user_id t) [
  | none ↦ (err (sentinel sql_no_rows), t)
  | some row ↦ (ok row, t)
]

abbrev pub or_zero : Option ℕ → ℕ
or_zero none = 0
or_zero (some t) = t

-- `if errors.Is(err, sql.ErrNoRows) { return …, ErrNoTokens }; if err != nil { return …, err }`
abbrev pub no_rows_as_no_tokens : Error → Error
no_rows_as_no_tokens e = if is e sql_no_rows then sentinel no_tokens else e

-- Both tokens of a row in plain text, as `Load` returns them.
unfoldable pub decrypt_row : Box → String → TokenRow → Result TokenRecord
decrypt_row box user_id row =
    elim (map_error (wrap "decrypt access token") (open_box box row.access_token)) [
      | err e ↦ err e
      | ok access ↦
          elim (map_error (wrap "decrypt refresh token") (open_box box row.refresh_token)) [
            | err e ↦ err e
            | ok refresh ↦ ok (record {
              user_id = user_id;
              refresh_token = refresh;
              access_token = access;
              expires_at = or_zero row.expires_at;
              scopes = some row.scopes;
            })
          ]
    ]

-- UPDATE … SET access_token, expires_at WHERE user_id
abbrev pub update_access_row : String → List ℕ → Option ℕ → ℕ → Exec TokenTable (Unit {0})
update_access_row user_id access expiry now t = elim (lookup user_id t) [
  | none ↦ (ok tt, t)
  | some row ↦ (
    ok tt,
    insert user_id (record row { access_token = access; expires_at = expiry; updated_at = now }) t,
  )
]

-- DELETE … RETURNING refresh_token
abbrev pub delete_row : String → Exec TokenTable (List ℕ)
delete_row user_id t = elim (lookup user_id t) [
  | none ↦ (err (sentinel sql_no_rows), t)
  | some row ↦ (ok row.refresh_token, erase user_id t)
]
