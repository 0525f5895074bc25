-- ===== src/Http/Query.antt =====
-- `url.Values.Encode` and `url.QueryEscape` of net/url. `Encode` writes the keys in order; the program's
-- keys are fixed, and its lists are given in that order here.
use Prim.Native.Char.{Char, code}
use Prim.Native.String.{[] as empty, ◌∷◌ as cons, ◌++◌ as join}
use google_photos_picker.Base.{
  ℕ, ◌+◌, ◌/◌, ◌%◌, ◌≡◌, refl, String, Bool, ◌&&◌, ◌||◌, List, [], ◌∷◌, ltb, leb, eqb, digit_char,
  chars, if◌then◌else◌,
}

-- The bytes of a code point in UTF-8.
abbrev utf8 : ℕ → List ℕ
utf8 c =
    if ltb c 0x80
    then c ∷ []
    else if ltb c 0x800
    then (0xc0 + c / 64) ∷ (0x80 + c % 64) ∷ []
    else if ltb c 0x10000
    then (0xe0 + c / 4096) ∷ (0x80 + c / 64 % 64) ∷ (0x80 + c % 64) ∷ []
    else (0xf0 + c / 262144) ∷ (0x80 + c / 4096 % 64) ∷ (0x80 + c / 64 % 64) ∷ (0x80 + c % 64) ∷ []

-- What stays as it is: letters, digits and - _ . ~
abbrev is_unreserved : ℕ → Bool
is_unreserved c =
    (leb b'a' c && leb c b'z')
    || (leb b'A' c && leb c b'Z')
    || (leb b'0' c && leb c b'9')
    || eqb c b'-'
    || eqb c b'_'
    || eqb c b'.'
    || eqb c b'~'

abbrev escape_bytes : List ℕ → String → String
escape_bytes [] rest = rest
escape_bytes (b ∷ bs) rest =
    cons "%" (cons (digit_char (b / 16)) (cons (digit_char (b % 16)) (escape_bytes bs rest)))

abbrev escape_char : Char → String → String
escape_char c rest =
    if is_unreserved (code c)
    then cons c rest
    else if eqb (code c) b' '
    then cons "+" rest
    else escape_bytes (utf8 (code c)) rest

-- `url.QueryEscape`
unfoldable pub query_escape : String → String
unfolding chars
query_escape String.[] = empty
query_escape (String.◌∷◌ c s) = escape_char c (query_escape s)

abbrev pair : String × String → String
pair (k, v) = join (query_escape k) (join "=" (query_escape v))

-- `Encode`, the keys in order.
unfoldable pub encode_values : List (String × String) → String
unfolding query_escape
encode_values [] = ""
encode_values (kv ∷ []) = pair kv
encode_values (kv ∷ more) = join (pair kv) (join "&" (encode_values more))

escaped :
    encode_values (("pageSize", "100") ∷ ("sessionId", "a b&ü/€") ∷ [])
    ≡ "pageSize=100&sessionId=a+b%26%C3%BC%2F%E2%82%AC"
unfolding encode_values
escaped = refl
