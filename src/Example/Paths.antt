-- ===== src/Example/Paths.antt =====
-- What examples/minimal/main.go uses of path/filepath on Unix.
use Prim.Native.Char.{code}
use Prim.Native.String.{[] as empty, ◌∷◌ as cons, ◌++◌ as join}
use google_photos_picker.Base.{
  String, ◌≡◌, refl, Bool, true, false, ◌&&◌, ◌||◌, not, List, [], ◌∷◌, ◌==◌, eqb, if◌then◌else◌,
  arith,
}

unfoldable pub has_slash : String → Bool
has_slash String.[] = false
has_slash (String.◌∷◌ c s) = eqb (code c) b'/' || has_slash s

-- `filepath.Ext`: from the last dot of the last element on.
unfoldable pub ext : String → String
unfolding has_slash
ext String.[] = empty
ext (String.◌∷◌ c s) =
    let later = ext s in
    if later == "" then (if eqb (code c) b'.' && not (has_slash s) then cons c s else "") else later

abbrev pub add_to_first : String → List String → List String
add_to_first c [] = c ∷ []
add_to_first c (e ∷ es) = join c e ∷ es

-- The elements between slashes; there is always one.
unfoldable pub split_path : String → List String
split_path String.[] = "" ∷ []
split_path (String.◌∷◌ c s) =
    let rest = split_path s in
    if eqb (code c) b'/' then "" ∷ rest else add_to_first (cons c empty) rest

abbrev parent : Bool → List String → List String
parent rooted [] = if rooted then [] else ".." ∷ []
parent rooted (e ∷ es) = if e == ".." then ".." ∷ e ∷ es else es

-- The elements that `Clean` keeps, the last one first, beside those already `kept`.
unfoldable pub clean_elements : Bool → List String → List String → List String
clean_elements rooted kept [] = kept
clean_elements rooted kept (e ∷ es) =
    let skipped = clean_elements rooted kept es in
    let up = clean_elements rooted (parent rooted kept) es in
    let down = clean_elements rooted (e ∷ kept) es in
    if e == "" || e == "." then skipped else if e == ".." then up else down

abbrev pub below : String → String → String
below s e = if s == "" then e else join s (join "/" e)

abbrev pub text_of : List String → String
text_of [] = ""
text_of (e ∷ es) = below (text_of es) e

abbrev pub is_rooted : String → Bool
is_rooted String.[] = false
is_rooted (String.◌∷◌ c s) = eqb (code c) b'/'

abbrev cleaned : Bool → List String → String
cleaned true kept = join "/" (text_of kept)
cleaned false [] = "."
cleaned false (e ∷ es) = text_of (e ∷ es)

-- `filepath.Clean`
unfoldable pub clean : String → String
unfolding split_path clean_elements
clean path = cleaned (is_rooted path) (clean_elements (is_rooted path) [] (split_path path))

-- `filepath.Join` of two elements.
unfoldable pub join_path : String → String → String
unfolding clean
join_path a b =
    if a == ""
    then (if b == "" then "" else clean b)
    else if b == ""
    then clean a
    else clean (join a (join "/" b))

-- The extension of a file never leads to another directory.
pub ext-has_slash : (path : String) → has_slash (ext path) ≡ false
unfolding ext has_slash
ext-has_slash String.[] = refl
ext-has_slash (String.◌∷◌ c s) =
    go (ext-has_slash s) (ext s == "") refl (eqb (code c) b'.' && not (has_slash s)) refl
  where
    go :
        has_slash (ext s) ≡ false
        → (b : Bool) → (ext s == "") ≡ b
        → (d : Bool) → (eqb (code c) b'.' && not (has_slash s)) ≡ d
        → has_slash (ext (cons c s)) ≡ false
    go later false e d f = rw (ext, e) later
    go later true e false f = rw (ext, e, f) refl
    go later true e true f = rw (ext, e, f) (ground (arith, f))

escaping : join_path "photos" "../../etc" ≡ "../etc"
unfolding join_path clean split_path clean_elements
escaping = refl

usual : join_path "./photos" "alice" ≡ "photos/alice"
unfolding join_path clean split_path clean_elements
usual = refl

extension : ext "a.b/photo.final.JPG" ≡ ".JPG"
unfolding ext has_slash
extension = refl
