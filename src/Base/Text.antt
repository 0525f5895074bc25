-- ===== src/Base/Text.antt =====
-- Text as the program writes it: the characters of a text, numbers as `%d` prints them, and
-- `strings.Fields`.
use Prim.Native.Nat.{ℕ, zero, suc, ◌+◌, ◌/◌, ◌%◌}
use Prim.Native.Char.{Char, code}
use Prim.Native.String.{String, [] as empty, ◌∷◌ as cons, ◌++◌ as join}
use mathlib.Core.Path.{◌≡◌, refl}
use mathlib.Core.Bool.{Bool, ◌&&◌, ◌||◌}
use mathlib.Core.List.{List, [], ◌∷◌}
use text.Mathlib.Text.{◌==◌}
use google_photos_picker.Base.Tests.{ltb, leb, eqb, if◌then◌else◌}
use google_photos_picker.Base.Lists.{get_or}

unfoldable pub chars : String → List Char
chars String.[] = []
chars (String.◌∷◌ c s) = c ∷ chars s

abbrev pub digit_char : ℕ → Char
unfolding chars
digit_char n = get_or (chars "0123456789ABCDEF") n "0"

-- The digits of `n` in front of a text; the fuel `n + 1` is more than there are digits.
digits_from : ℕ → ℕ → String → String
unfolding chars
digits_from zero n rest = rest
digits_from (suc fuel) n rest =
    let shown = cons (digit_char (n % 10)) rest in
    let more = digits_from fuel (n / 10) shown in if ltb n 10 then shown else more

-- `%d`
unfoldable pub decimal : ℕ → String
unfolding digits_from chars
decimal n = digits_from (n + 1) n ""

decimal-502 : decimal 502 ≡ "502"
unfolding decimal
decimal-502 = refl

-- `unicode.IsSpace`
abbrev is_space : ℕ → Bool
is_space c =
    (leb 9 c && leb c 13)
    || eqb c 32
    || eqb c 0x85
    || eqb c 0xa0
    || eqb c 0x1680
    || (leb 0x2000 c && leb c 0x200a)
    || eqb c 0x2028
    || eqb c 0x2029
    || eqb c 0x202f
    || eqb c 0x205f
    || eqb c 0x3000

abbrev close_field : String → List String → List String
close_field field rest = if field == "" then rest else field ∷ rest

fields_from : String → String → List String
fields_from field String.[] = close_field field []
fields_from field (String.◌∷◌ c s) =
    let closed = close_field field (fields_from "" s) in
    let longer = fields_from (join field (cons c empty)) s in
    if is_space (code c) then closed else longer

-- `strings.Fields`
unfoldable pub fields : String → List String
unfolding fields_from
fields s = fields_from "" s

fields-scopes : fields " openid  photos.readonly " ≡ "openid" ∷ "photos.readonly" ∷ []
unfolding fields
fields-scopes = refl
