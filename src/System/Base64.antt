-- ===== src/System/Base64.antt =====
-- `base64.RawURLEncoding.EncodeToString` of Go's standard library: six bits a character, the
-- URL-safe alphabet, no padding.
use Prim.Native.String.{[] as empty, ◌∷◌ as cons}
use google_photos_picker.Base.{
  ℕ, ◌+◌, ◌*◌, ◌/◌, ◌%◌, Char, String, ◌≡◌, refl, List, [], ◌∷◌, get_or, chars,
}

sextet : ℕ → Char
unfolding chars
sextet n = get_or (chars "ABCDEFGHIJKLMNOPQRSTUVWXYZabcdefghijklmnopqrstuvwxyz0123456789-_") n "A"

unfoldable pub encode : List ℕ → String
unfolding sextet
encode [] = String.[]
encode (a ∷ []) = cons (sextet (a / 4)) (cons (sextet (a % 4 * 16)) empty)
encode (a ∷ b ∷ []) =
    cons (sextet (a / 4)) (cons (sextet (a % 4 * 16 + b / 16)) (cons (sextet (b % 16 * 4)) empty))
encode (a ∷ b ∷ c ∷ rest) = cons (sextet (a / 4)) (
    cons (sextet (a % 4 * 16 + b / 16))
      (cons (sextet (b % 16 * 4 + c / 64)) (cons (sextet (c % 64)) (encode rest))))

encode-hello : encode (104 ∷ 101 ∷ 108 ∷ 108 ∷ 111 ∷ []) ≡ "aGVsbG8"
unfolding encode
encode-hello = refl
