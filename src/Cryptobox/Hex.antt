-- ===== src/Cryptobox/Hex.antt =====
-- `hex.DecodeString` of Go's standard library. A text is walked by its code points: a character that
-- is not one of the ASCII digits is refused, whatever its bytes.
use Prim.Native.Char.{code}
use google_photos_picker.Base.{
  ℕ, ◌+◌, ◌-◌, ◌*◌, String, ◌≡◌, refl, ◌&&◌, Option, none, some, List, [], ◌∷◌, length, All, leb,
  if◌then◌else◌, arith,
}
use google_photos_picker.Errors.{Error, other}
use google_photos_picker.Exec.{Result, ok, err}

abbrev pub codes : String → List ℕ
codes String.[] = []
codes (String.◌∷◌ first rest) = code first ∷ codes rest

-- The value of a hexadecimal digit, of either case.
unfoldable pub digit : ℕ → Option ℕ
digit c =
    if leb b'0' c && leb c b'9'
    then some (c - b'0')
    else if leb b'a' c && leb c b'f'
    then some (c - b'a' + 10)
    else if leb b'A' c && leb c b'F'
    then some (c - b'A' + 10)
    else none

abbrev pub invalid_byte : Error
invalid_byte = other "encoding/hex: invalid byte"

abbrev pub odd_length : Error
odd_length = other "encoding/hex: odd length hex string"

abbrev cons_byte : ℕ → Result (List ℕ) → Result (List ℕ)
cons_byte b (ok bs) = ok (b ∷ bs)
cons_byte b (err e) = err e

abbrev decode_pair : Option ℕ → Option ℕ → Result (List ℕ) → Result (List ℕ)
decode_pair none _ rest = err invalid_byte
decode_pair (some a) none rest = err invalid_byte
decode_pair (some a) (some b) rest = cons_byte (a * 16 + b) rest

unfoldable pub decode : List ℕ → Result (List ℕ)
decode [] = ok []
decode (p ∷ []) = elim (digit p) [ none ↦ err invalid_byte | some _ ↦ err odd_length ]
decode (p ∷ q ∷ rest) = decode_pair (digit p) (digit q) (decode rest)

unfoldable pub decode_string : String → Result (List ℕ)
unfolding decode
decode_string s = decode (codes s)

abbrev pub IsHexDigit : ℕ → Type 0
IsHexDigit c = (d : ℕ) × (digit c ≡ some d)

-- The parts of a decoding that begins with a pair of digits and succeeds.
record DecodedPair (oa ob : Option ℕ) (rest : Result (List ℕ)) (bytes : List ℕ) : Type 0 where
  high : ℕ
  low : ℕ
  others : List ℕ
  high_digit : oa ≡ some high
  low_digit : ob ≡ some low
  rest_decoded : rest ≡ ok others
  bytes_eq : bytes ≡ (high * 16 + low) ∷ others

decode_pair-eq-ok :
    (oa ob : Option ℕ) (rest : Result (List ℕ)) (bytes : List ℕ)
    → decode_pair oa ob rest ≡ ok bytes
    → DecodedPair oa ob rest bytes
decode_pair-eq-ok none ob rest bytes h = cc
decode_pair-eq-ok (some a) none rest bytes h = cc
decode_pair-eq-ok (some a) (some b) (err e) bytes h = cc
decode_pair-eq-ok (some a) (some b) (ok bs) bytes h = record {
  high = a;
  low = b;
  others = bs;
  high_digit = refl;
  low_digit = refl;
  rest_decoded = refl;
  bytes_eq = cc;
}

pub length-decode : (s bytes : List ℕ) → decode s ≡ ok bytes → length s ≡ 2 * length bytes
unfolding decode
length-decode [] bytes h = ground arith
length-decode (p ∷ []) bytes h = ground arith
length-decode (p ∷ q ∷ rest) bytes h =
    let d = decode_pair-eq-ok (digit p) (digit q) (decode rest) bytes h in
    rw d.bytes_eq (omega (arith, length-decode rest d.others d.rest_decoded))

pub decode-digits : (s bytes : List ℕ) → decode s ≡ ok bytes → All IsHexDigit s
unfolding decode
decode-digits [] bytes h = tt
decode-digits (p ∷ []) bytes h = ground arith
decode-digits (p ∷ q ∷ rest) bytes h =
    let d = decode_pair-eq-ok (digit p) (digit q) (decode rest) bytes h in
    ((d.high, d.high_digit), ((d.low, d.low_digit), decode-digits rest d.others d.rest_decoded))

pub decode_total :
    (n : ℕ) (s : List ℕ)
    → length s ≡ 2 * n
    → All IsHexDigit s
    → (bytes : List ℕ) × (decode s ≡ ok bytes) × (length bytes ≡ n)
unfolding decode
decode_total n [] len h = ([], refl, omega arith)
decode_total n (p ∷ []) len h = absurd (omega arith)
decode_total n (p ∷ q ∷ rest) len h =
    let (bytes, e, l) = decode_total (n - 1) rest (omega arith) h.1.1 in
    ((h.0.0 * 16 + h.1.0.0) ∷ bytes, rw (h.0.1, h.1.0.1, e), omega arith)
