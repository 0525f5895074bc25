-- ===== src/Cryptobox/Tests.antt =====
-- The theorems of the box at concrete inputs.
use google_photos_picker.Base.{◌≡◌, refl, [], ◌∷◌, String}
use google_photos_picker.Exec.{ok}
use google_photos_picker.Cryptobox.{new_from_hex, seal, open_box}
use google_photos_picker.Cryptobox.Hex.{digit, decode_string}
use google_photos_picker.Cryptobox.RoundTrip.{open_box-seal}
use google_photos_picker.Cryptobox.Toy.{
  clockwork, clockwork-FillsBuffer, toy_aead, toy_box, toy_aead-IsAead,
}

abbrev key_text : String
key_text = "000102030405060708090a0b0c0d0e0f101112131415161718191A1B1C1D1E1F"

sealed_token :
    (seal clockwork toy_box "ya29.token" 5).0
    ≡ ok (
        1 ∷ 1 ∷ 1 ∷ 1 ∷ 1 ∷ 1 ∷ 1 ∷ 1 ∷ 1 ∷ 1 ∷ 1 ∷ 1 ∷ 7 ∷ 121 ∷ 97 ∷ 50 ∷ 57 ∷ 46 ∷ 116 ∷ 111
        ∷ 107 ∷ 101 ∷ 110 ∷ [])
unfolding seal clockwork toy_box
sealed_token = refl

open_box-seal_example :
    open_box toy_box (
      1 ∷ 1 ∷ 1 ∷ 1 ∷ 1 ∷ 1 ∷ 1 ∷ 1 ∷ 1 ∷ 1 ∷ 1 ∷ 1 ∷ 7 ∷ 121 ∷ 97 ∷ 50 ∷ 57 ∷ 46 ∷ 116 ∷ 111 ∷ 107
      ∷ 101 ∷ 110 ∷ [])
    ≡ ok "ya29.token"
unfolding toy_box
open_box-seal_example =
    open_box-seal toy_box toy_aead-IsAead clockwork clockwork-FillsBuffer "ya29.token" 5 _
      sealed_token

key_made : new_from_hex (λ key. ok toy_aead) key_text ≡ ok toy_box
unfolding new_from_hex toy_box decode_string digit
key_made = refl
