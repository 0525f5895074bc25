-- ===== src/Cryptobox.antt =====
-- internal/cryptobox: the AES-256-GCM envelope round the tokens at rest.
-- AES and GCM are Go's crypto packages and enter as the record `Aead` and the parameter `aes_gcm`.
-- Bytes are numbers below 256; a nil slice is the empty list. Plaintexts are Go strings throughout.
pub mod Hex
pub mod RoundTrip
pub mod Toy
mod Tests
use Prim.Native.String.{◌++◌ as join}
use google_photos_picker.Base.{
  ℕ, decimal, String, Bool, true, false, not, List, [], ◌∷◌, ◌++◌, length, take, drop, ltb, eqb,
  ◌==◌, if◌then◌else◌,
}
use google_photos_picker.Errors.{Error, other, wrap}
use google_photos_picker.Exec.{Result, ok, err, Exec, pure, lift, ◌>>=◌}
use google_photos_picker.System.{System}
use google_photos_picker.Cryptobox.Hex.{decode_string}

-- cipher.AEAD
pub record Aead : Type 0 where
  pub nonce_size : ℕ
  pub seal_with : List ℕ → String → List ℕ  -- nonce, plaintext
  pub open_with : List ℕ → List ℕ → Result String  -- nonce, ciphertext

pub record Box : Type 0 where
  pub aead : Aead

-- cryptobox: key must be 32 bytes (got %d)
abbrev key_error : ℕ → Error
key_error n = other (join "cryptobox: key must be 32 bytes (got " (join (decimal n) ")"))

-- `New`; `aes_gcm` is `aes.NewCipher` followed by `cipher.NewGCM`.
unfoldable pub new_box : (List ℕ → Result Aead) → List ℕ → Result Box
new_box aes_gcm key =
    if not (eqb (length key) 32)
    then err (key_error (length key))
    else elim (aes_gcm key) [ ok aead ↦ ok (record { aead = aead }) | err e ↦ err e ]

-- `NewFromHex`
unfoldable pub new_from_hex : (List ℕ → Result Aead) → String → Result Box
unfolding new_box
new_from_hex aes_gcm key_hex = elim (decode_string key_hex) [
  | ok key ↦ new_box aes_gcm key
  | err e ↦ err (wrap "cryptobox: invalid hex key" e)
]

abbrev pub too_short : Error
too_short = other "cryptobox: ciphertext too short"

-- `Seal`: a nil ciphertext for the empty text, else the nonce and what the cipher makes of it.
unfoldable pub seal : {X : Type 0} → System X → Box → String → Exec X (List ℕ)
seal sys b plain =
    if plain == ""
    then pure []
    else do nonce ← sys.random b.aead.nonce_size; pure (nonce ++ b.aead.seal_with nonce plain)

-- `Open`
unfoldable pub open_box : Box → List ℕ → Result String
open_box b [] = ok ""
open_box b (c ∷ rest) =
    let ct = c ∷ rest in
    let ns = b.aead.nonce_size in
    if ltb (length ct) ns then err too_short else b.aead.open_with (take ns ct) (drop ns ct)
