-- ===== src/Postgres/Tokens/Tests.antt =====
-- The contract of the token store, and a round trip through the sealed columns.
use google_photos_picker.Base.{◌≡◌, refl, some, [], ◌∷◌, lookup, insert, ◌*◌, second}
use google_photos_picker.Exec.{ok}
use google_photos_picker.Cryptobox.{seal, open_box}
use google_photos_picker.Cryptobox.Toy.{clockwork, toy_box}
use google_photos_picker.Stores.{TokenRecord}
use google_photos_picker.Postgres.Tokens.{save, load, decrypt_row}
use google_photos_picker.Toy.{toy_database, background}

abbrev tokens : TokenRecord
tokens = record {
  user_id = "alice";
  refresh_token = "1//r";
  access_token = "ya29";
  expires_at = 9000 * second;
  scopes = some ("s" ∷ []);
}

saved_and_loaded :
    (load toy_database toy_box background "alice"
      (save clockwork toy_database toy_box background tokens ([], 1)).1).0
    ≡ ok tokens
unfolding save load decrypt_row seal open_box clockwork toy_box lookup insert
saved_and_loaded = refl
