-- ===== src/Postgres/Tokens/View.antt =====
-- What the table holds for a user once its tokens are in plain text again, and the rows that the
-- store writes: both tokens sealed by its own box.
use google_photos_picker.Base.{
  String, ◌≡◌, ◌≢◌, subst, ◌∙◌, ap, inl, inr, Option, none, some, lookup, insert, erase,
  lookup-insert, lookup-erase, Bool-cases, ◌==◌, eq_iff, eq_refl, arith,
}
use google_photos_picker.Exec.{Result, ok}
use google_photos_picker.Cryptobox.{Box, open_box}
use google_photos_picker.Stores.{TokenRecord}
use google_photos_picker.Postgres.Tokens.{TokenRow, TokenTable, decrypt_row, or_zero}

-- The record that a row stands for; `none` where the user has no row.
unfoldable pub view : Box → TokenTable → String → Option (Result TokenRecord)
view box t user_id = elim (lookup user_id t) [
  | none ↦ none
  | some row ↦ some (decrypt_row box user_id row)
]

abbrev pub record_of : String → TokenRow → String → String → TokenRecord
record_of user_id row refresh access = record {
  user_id = user_id;
  refresh_token = refresh;
  access_token = access;
  expires_at = or_zero row.expires_at;
  scopes = some row.scopes;
}

module _ (box : Box) where
  -- A row whose two columns open to these tokens reads as the record of them.
  pub decrypt_row_lem :
      (user_id : String) (row : TokenRow) (refresh access : String)
      → open_box box row.access_token ≡ ok access
      → open_box box row.refresh_token ≡ ok refresh
      → decrypt_row box user_id row ≡ ok (record_of user_id row refresh access)
  unfolding decrypt_row
  decrypt_row_lem user_id row refresh access a r = ground arith

  pub decrypt_row_scopes :
      (user_id : String) (row : TokenRow) (rec : TokenRecord)
      → decrypt_row box user_id row ≡ ok rec
      → rec.scopes ≡ some row.scopes
  unfolding decrypt_row
  decrypt_row_scopes user_id row rec h = ground arith

  pub view-insert_self :
      (user_id : String) (row : TokenRow) (t : TokenTable)
      → view box (insert user_id row t) user_id ≡ some (decrypt_row box user_id row)
  unfolding view
  view-insert_self user_id row t =
      ground (arith, lookup-insert user_id user_id row t, eq_refl user_id)

  pub view-insert_ne :
      (user_id other : String) (row : TokenRow) (t : TokenTable)
      → user_id ≢ other
      → view box (insert user_id row t) other ≡ view box t other
  unfolding view
  view-insert_ne user_id other row t h =
      ground (arith, lookup-insert user_id other row t, eq_iff user_id other)

  pub view-erase_self :
      (user_id : String) (t : TokenTable) → view box (erase user_id t) user_id ≡ none
  unfolding view
  view-erase_self user_id t = ground (arith, lookup-erase user_id user_id t, eq_refl user_id)

  pub view-erase_ne :
      (user_id other : String) (t : TokenTable)
      → user_id ≢ other
      → view box (erase user_id t) other ≡ view box t other
  unfolding view
  view-erase_ne user_id other t h =
      ground (arith, lookup-erase user_id other t, eq_iff user_id other)

  -- Both columns of the row open to a text.
  pub record IsSealed (row : TokenRow) : Type 0 where
    pub refresh : String
    pub access : String
    pub refresh_opens : open_box box row.refresh_token ≡ ok refresh
    pub access_opens : open_box box row.access_token ≡ ok access

  pub record IsValid (t : TokenTable) : Type 0 where
    pub sealed : (user_id : String) (row : TokenRow) → lookup user_id t ≡ some row → IsSealed row

  pub insert-IsValid :
      (user_id : String) (row : TokenRow) (t : TokenTable)
      → IsSealed row
      → IsValid t
      → IsValid (insert user_id row t)
  insert-IsValid user_id row t new h = record {
    sealed = λ k r e. elim (Bool-cases (user_id == k)) [
      | inl same ↦ subst IsSealed (ground (arith, lookup-insert user_id k row t)) new
      | inr differ ↦ h.sealed k r (ground (arith, lookup-insert user_id k row t))
    ];
  }

  pub erase-IsValid : (user_id : String) (t : TokenTable) → IsValid t → IsValid (erase user_id t)
  erase-IsValid user_id t h = record {
    sealed = λ k r e. h.sealed k r (ground (arith, lookup-erase user_id k t));
  }

  pub view-none :
      (user_id : String) (t : TokenTable) → lookup user_id t ≡ none → view box t user_id ≡ none
  unfolding view
  view-none user_id t h = ground arith

  pub view-some :
      (user_id : String) (row : TokenRow) (t : TokenTable)
      → lookup user_id t ≡ some row
      → view box t user_id ≡ some (decrypt_row box user_id row)
  unfolding view
  view-some user_id row t h = ground arith

  pub view-IsSealed :
      (user_id : String) (row : TokenRow) (t : TokenTable) (s : IsSealed row)
      → lookup user_id t ≡ some row
      → view box t user_id ≡ some (ok (record_of user_id row s.refresh s.access))
  view-IsSealed user_id row t s h =
      view-some user_id row t h
      ∙ ap some (decrypt_row_lem user_id row s.refresh s.access s.access_opens s.refresh_opens)
