-- ===== src/Cryptobox/Toy.antt =====
-- A cipher that encrypts nothing, to run the box and to show that what is assumed of AES-GCM can
-- hold: the ciphertext is the nonce's first byte, for a tag, and the code points of the text.
use Prim.Native.Nat.{compare, Ordering}
use Prim.Native.Char.{char, IsLt, IsScalar}
use Prim.Native.String.{[] as empty, ◌∷◌ as cons}
use text.Mathlib.TextEquality.{IsScalar-prop}
use google_photos_picker.Base.{
  ℕ, zero, suc, Char, String, ◌≡◌, refl, ap, Option, none, some, List, [], ◌∷◌, length, arith,
}
use google_photos_picker.Errors.{other}
use google_photos_picker.Exec.{Result, ok, err}
use google_photos_picker.System.{System}
use google_photos_picker.Cryptobox.Hex.{codes}
use google_photos_picker.Cryptobox.RoundTrip.{IsAead, FillsBuffer}
use google_photos_picker.Cryptobox.{Aead, Box}

ones : ℕ → List ℕ
ones zero = []
ones (suc n) = 1 ∷ ones n

length-ones : (n : ℕ) → length (ones n) ≡ n
unfolding ones
length-ones zero = refl
length-ones (suc n) = ap suc (length-ones n)

-- A process whose environment is the time of day, and whose random bytes are ones.
unfoldable pub clockwork : System ℕ
unfolding ones
clockwork = record { now = λ x. x; random = λ n x. (ok (ones n), suc x) }

pub clockwork-FillsBuffer : FillsBuffer clockwork
unfolding clockwork
clockwork-FillsBuffer n x bytes h = ground (arith, length-ones n)

abbrev Both : Ordering → Ordering → Type 0
Both Ordering.lt o = IsLt o
Both Ordering.eq _ = ⊥
Both Ordering.gt _ = ⊥

abbrev Scalar : Ordering → Ordering → Ordering → Type 0
Scalar Ordering.lt _ _ = Unit
Scalar Ordering.eq o p = Both o p
Scalar Ordering.gt o p = Both o p

scalar_of : (o p q : Ordering) → Option (Scalar o p q)
scalar_of Ordering.lt _ _ = some tt
scalar_of Ordering.eq Ordering.lt Ordering.lt = some tt
scalar_of Ordering.gt Ordering.lt Ordering.lt = some tt
scalar_of _ _ _ = none

scalar_of-some : (o p q : Ordering) → Scalar o p q → (h : Scalar o p q) × (scalar_of o p q ≡ some h)
unfolding scalar_of
scalar_of-some Ordering.lt _ _ h = (tt, refl)
scalar_of-some Ordering.eq Ordering.lt Ordering.lt h = (tt, refl)
scalar_of-some Ordering.eq Ordering.lt Ordering.eq h = absurd h
scalar_of-some Ordering.eq Ordering.lt Ordering.gt h = absurd h
scalar_of-some Ordering.eq Ordering.eq _ h = absurd h
scalar_of-some Ordering.eq Ordering.gt _ h = absurd h
scalar_of-some Ordering.gt Ordering.lt Ordering.lt h = (tt, refl)
scalar_of-some Ordering.gt Ordering.lt Ordering.eq h = absurd h
scalar_of-some Ordering.gt Ordering.lt Ordering.gt h = absurd h
scalar_of-some Ordering.gt Ordering.eq _ h = absurd h
scalar_of-some Ordering.gt Ordering.gt _ h = absurd h

is_scalar : (n : ℕ) → Option (IsScalar n)
unfolding scalar_of
is_scalar n = scalar_of (compare n 55296) (compare 57343 n) (compare n 1114112)

abbrev prepend : Option Char → Result String → Result String
prepend none r = err (other "toy cipher: bad character")
prepend (some c) (ok s) = ok (cons c s)
prepend (some c) (err e) = err e

abbrev char_at_code : (n : ℕ) → Option (IsScalar n) → Option Char
char_at_code n none = none
char_at_code n (some h) = some (char n h)

text_of : List ℕ → Result String
text_of [] = ok empty
text_of (n ∷ ns) = prepend (char_at_code n (is_scalar n)) (text_of ns)

text_of-codes : (s : String) → text_of (codes s) ≡ ok s
unfolding text_of
text_of-codes String.[] = refl
text_of-codes (String.◌∷◌ (char n p) s) =
    let (h, e) = scalar_of-some (compare n 55296) (compare 57343 n) (compare n 1114112) p in
    let found : is_scalar n ≡ some h = unfold is_scalar in e in
    rw (found, text_of-codes s) (ap (λ q. ok (cons (char n q) s)) (IsScalar-prop n h p))

open_tagged : List ℕ → Result String
open_tagged [] = err (other "toy cipher: no tag")
open_tagged (_ ∷ body) = text_of body

unfoldable pub toy_aead : Aead
unfolding open_tagged text_of is_scalar
toy_aead = record {
  nonce_size = 12;
  seal_with = λ nonce plain. 7 ∷ codes plain;
  open_with = λ nonce ct. open_tagged ct;
}

pub toy_aead-IsAead : IsAead toy_aead
unfolding toy_aead
toy_aead-IsAead = record { nonce_pos = omega arith; opens = λ nonce plain h. text_of-codes plain }

unfoldable pub toy_box : Box
unfolding toy_aead
toy_box = record { aead = toy_aead }
