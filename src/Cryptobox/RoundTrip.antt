-- ===== src/Cryptobox/RoundTrip.antt =====
-- `Seal` and `Open` together, and the keys of `NewFromHex` (internal/cryptobox/cryptobox.go).
use google_photos_picker.Base.{
  ℕ, ◌<◌, String, ◌≡◌, refl, sym, ◌∙◌, inl, inr, false, List, [], ◌∷◌, ◌++◌, length, All,
  length-append, take-append, drop-append, Bool-cases, ltb, eqb, le→not_ltb, ◌==◌, eq_iff, arith,
}
use google_photos_picker.Errors.{Error}
use google_photos_picker.Exec.{Result, ok, err, Result-cases}
use google_photos_picker.System.{System}
use google_photos_picker.Cryptobox.{Aead, Box, new_box, new_from_hex, seal, open_box, too_short}
use google_photos_picker.Cryptobox.Hex.{
  codes, decode, decode_string, IsHexDigit, length-decode, decode-digits, decode_total,
}

-- What crypto/cipher documents of an AEAD: a nonce has at least a byte, and `Open` undoes `Seal`
-- under the same nonce.
pub record IsAead (a : Aead) : Type 0 where
  pub nonce_pos : 0 < a.nonce_size
  pub opens :
      (nonce : List ℕ) (plain : String)
      → length nonce ≡ a.nonce_size
      → a.open_with nonce (a.seal_with nonce plain) ≡ ok plain

-- What crypto/rand and `io.ReadFull` document: a read that succeeds fills the buffer.
abbrev pub FillsBuffer : {X : Type 0} → System X → Type 0
FillsBuffer {X} sys =
    (n : ℕ) (x : X) (bytes : List ℕ) → (sys.random n x).0 ≡ ok bytes → length bytes ≡ n

open_box-nil : (b : Box) → open_box b [] ≡ ok ""
unfolding open_box
open_box-nil b = refl

module _ (b : Box) (law : IsAead b.aead) where
  open_box_nonce :
      (nonce : List ℕ) (plain : String)
      → length nonce ≡ b.aead.nonce_size
      → open_box b (nonce ++ b.aead.seal_with nonce plain) ≡ ok plain
  unfolding open_box
  open_box_nonce [] plain h = absurd (omega (arith, law.nonce_pos))
  open_box_nonce (c ∷ cs) plain h =
      let body = b.aead.seal_with (c ∷ cs) plain in
      let fits : ltb (length ((c ∷ cs) ++ body)) b.aead.nonce_size ≡ false =
        le→not_ltb _ _ (rw (← h, length-append (c ∷ cs) body) (omega arith)) in
      rw (fits, ← h, take-append (c ∷ cs) body, drop-append (c ∷ cs) body)
        (law.opens (c ∷ cs) plain h)

  -- Over an authenticated cipher and a random source that fills its buffers, what `seal` makes of a text,
  -- the empty one included, opens to that text.
  pub open_box-seal :
      {X : Type 0} (sys : System X) (fills : FillsBuffer sys) (plain : String) (x : X) (ct : List ℕ)
      → (seal sys b plain x).0 ≡ ok ct
      → open_box b ct ≡ ok plain
  unfolding seal
  open_box-seal sys fills plain x ct h = elim (Bool-cases (plain == "")) [
    | inl empty ↦ ground (arith, eq_iff plain "", open_box-nil b)
    | inr full ↦ elim (Result-cases (sys.random b.aead.nonce_size x).0) [
      | inl (nonce, drawn) ↦
          ground (arith, open_box_nonce nonce plain (fills b.aead.nonce_size x nonce drawn))
      | inr (e, failed) ↦ ground arith
    ]
  ]

-- A ciphertext that is not empty and is shorter than a nonce is refused, before any decryption.
pub open_box_short :
    (b : Box) (ct : List ℕ)
    → 0 < length ct
    → length ct < b.aead.nonce_size
    → open_box b ct ≡ err too_short
unfolding open_box
open_box_short b [] h k = absurd (omega arith)
open_box_short b (c ∷ ct) h k = ground arith

-- Accepted keys: the text has 64 characters, all of them hexadecimal digits of either case.
abbrev pub IsKeyText : String → Type 0
IsKeyText s = (length (codes s) ≡ 64) × All IsHexDigit (codes s)

module _ (aes_gcm : List ℕ → Result Aead) where
  new_box-length : (key : List ℕ) (b : Box) → new_box aes_gcm key ≡ ok b → length key ≡ 32
  unfolding new_box
  new_box-length key b h = elim (Bool-cases (eqb (length key) 32)) [
    | inl fits ↦ ground arith
    | inr misfits ↦ ground arith
  ]

  new_from_hex-decoded :
      (s : String) (key : List ℕ)
      → decode_string s ≡ ok key
      → new_from_hex aes_gcm s ≡ new_box aes_gcm key
  unfolding new_from_hex
  new_from_hex-decoded s key h = rw (h, new_from_hex)

  new_from_hex-refused :
      (s : String) (e : Error) (b : Box)
      → decode_string s ≡ err e
      → ¬ (new_from_hex aes_gcm s ≡ ok b)
  unfolding new_from_hex
  new_from_hex-refused s e b h k = cc (sym (rw (h, new_from_hex) at k))

  -- A box is made only from a text of 64 hexadecimal digits.
  pub new_from_hex_needs : (s : String) (b : Box) → new_from_hex aes_gcm s ≡ ok b → IsKeyText s
  unfolding decode_string
  new_from_hex_needs s b h = elim (Result-cases (decode (codes s))) [
    | inl (key, decoded) ↦
        let size = new_box-length key b (sym (new_from_hex-decoded s key decoded) ∙ h) in
        (omega (arith, length-decode (codes s) key decoded), decode-digits (codes s) key decoded)
    | inr (e, refused) ↦ absurd (new_from_hex-refused s e b refused h)
  ]

  new_from_hex_ok :
      (s : String) (key : List ℕ) (a : Aead)
      → decode (codes s) ≡ ok key
      → length key ≡ 32
      → aes_gcm key ≡ ok a
      → new_from_hex aes_gcm s ≡ ok (record { aead = a })
  unfolding new_box decode_string
  new_from_hex_ok s key a decoded size made = new_from_hex-decoded s key decoded ∙ rw (size, made)

  -- From every such text a box is made, if the cipher takes every key of 32 bytes.
  pub new_from_hex_total :
      (accepts : (key : List ℕ) → length key ≡ 32 → (a : Aead) × (aes_gcm key ≡ ok a)) (s : String)
      → IsKeyText s
      → (b : Box) × (new_from_hex aes_gcm s ≡ ok b)
  new_from_hex_total accepts s (len, digits) =
      let (key, decoded, size) = decode_total 32 (codes s) len digits in
      let (a, made) = accepts key size in
      (record { aead = a }, new_from_hex_ok s key a decoded size made)
