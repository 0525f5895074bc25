-- ===== src/Example/Disk/Plain.antt =====
-- Where `localSink` puts the photos of a user whose id is the plain name of a directory.
use Prim.Native.String.{[] as empty, ◌∷◌ as cons, ◌++◌ as join, count}
use Prim.Native.Char.{code}
use text.Mathlib.TextLemmas.{nil-append, cons-append, length-append, append_assoc, cons≢nil}
use google_photos_picker.Base.{
  ℕ, Char, ◌++◌, ◌<◌, ◌+◌, String, ◌≡◌, refl, sym, ap, ◌∙◌, Bool, true, false, ◌||◌, List, [], ◌∷◌,
  ◌==◌, eqb, if◌then◌else◌, arith, Bool-cases, inl, inr, eq_iff,
}
use google_photos_picker.Exec.{ok, Context}
use google_photos_picker.Sink.{DownloadedPhoto}
use google_photos_picker.Example.Paths.{
  has_slash, ext, ext-has_slash, is_rooted, split_path, clean_elements, clean, join_path,
}
use google_photos_picker.Example.Disk.{Files, ext_from_mime, extension, save_photo}

-- What is done to the disk: the directory is made, and then the file of this path in it, with these bytes,
-- and nothing else.
pub record IsWritten {X : Type 0} (files : Files X) (dir path : String) (bytes : List ℕ) (x x' : X)
    : Type 0 where
  pub made : (files.mkdir_all dir x).0 ≡ ok tt
  pub created : (files.create path (files.mkdir_all dir x).1).0 ≡ ok tt
  pub copied : (files.copy path bytes (files.create path (files.mkdir_all dir x).1).1).0 ≡ ok tt
  pub after : x' ≡ (files.copy path bytes (files.create path (files.mkdir_all dir x).1).1).1

-- A text that names an entry of a directory.
pub record IsPlain (name : String) : Type 0 where
  pub no_slash : has_slash name ≡ false
  pub named : (name == "") ≡ false
  pub not_here : (name == ".") ≡ false
  pub not_above : (name == "..") ≡ false

-- A text that begins is not empty.
begun : (c : Char) (s t : String) → (join (cons c s) t == "") ≡ false
begun c s t = elim (Bool-cases (join (cons c s) t == "")) [
  | inl same ↦ absurd (cons≢nil (sym (cons-append c s t) ∙ (eq_iff (join (cons c s) t) "").0 same))
  | inr other ↦ other
]

is_rooted-begun : (c : Char) (s t : String) → is_rooted (join (cons c s) t) ≡ eqb (code c) b'/'
is_rooted-begun c s t = rw (cons-append c s t) refl

is_rooted-join :
    (c : Char) (s t u : String) → is_rooted (join (join (cons c s) t) u) ≡ eqb (code c) b'/'
is_rooted-join c s t u = rw (append_assoc (cons c s) t u) (is_rooted-begun c s (join t u))

slash : (t : String) → join "/" t ≡ cons "/" t
slash t = cons-append "/" empty t ∙ ap (cons "/") (nil-append t)

split_path-some : (s : String) → (e : String) × (es : List String) × (split_path s ≡ e ∷ es)
unfolding split_path
split_path-some String.[] = ("", [], refl)
split_path-some (String.◌∷◌ c s) =
    let (e, es, same) = split_path-some s in
    elim (Bool-cases (eqb (code c) b'/')) [
      | inl at_slash ↦ ("", split_path s, rw at_slash refl)
      | inr elsewhere ↦ (join (cons c empty) e, es, rw (elsewhere, same) refl)
    ]

-- A slash ends an element.
split_path-join : (s t : String) → split_path (join s (join "/" t)) ≡ split_path s ++ split_path t
unfolding split_path
split_path-join String.[] t = rw (nil-append (join "/" t), slash t) refl
split_path-join (String.◌∷◌ c s) t =
    let (e, es, same) = split_path-some s in
    let later = split_path-join s t in
    elim (Bool-cases (eqb (code c) b'/')) [
      | inl at_slash ↦ rw (cons-append c s (join "/" t), at_slash, later) refl
      | inr elsewhere ↦ rw (cons-append c s (join "/" t), elsewhere, later, same) refl
    ]

split_path-plain : (s : String) → has_slash s ≡ false → split_path s ≡ s ∷ []
unfolding split_path has_slash
split_path-plain String.[] h = refl
split_path-plain (String.◌∷◌ c s) h = elim (Bool-cases (eqb (code c) b'/')) [
  | inl at_slash ↦ absurd (ground (arith, at_slash, h))
  | inr elsewhere ↦
      rw (elsewhere, split_path-plain s (ground (arith, elsewhere, h)))
        (ap (λ e. e ∷ []) (cons-append c empty s ∙ ap (cons c) (nil-append s)))
]

join_path-plain :
    (user : String) → IsPlain user → join_path "./photos" user ≡ join "photos" (join "/" user)
unfolding join_path clean split_path clean_elements
join_path-plain user p =
    rw
      (
        is_rooted-begun "." "/photos" (join "/" user),
        split_path-join "./photos" user,
        split_path-plain user p.no_slash,
        p.named,
        p.not_here,
        p.not_above,
      )
      refl

join_path-inside :
    (user name : String)
    → IsPlain user
    → IsPlain name
    → join_path (join "photos" (join "/" user)) name
      ≡ join (join "photos" (join "/" user)) (join "/" name)
unfolding join_path clean split_path clean_elements
join_path-inside user name p q =
    rw
      (
        begun "p" "hotos" (join "/" user),
        q.named,
        is_rooted-join "p" "hotos" (join "/" user) (join "/" name),
        split_path-join (join "photos" (join "/" user)) name,
        split_path-join "photos" user,
        split_path-plain user p.no_slash,
        split_path-plain name q.no_slash,
        p.named,
        p.not_here,
        p.not_above,
        q.not_here,
        q.not_above,
      )
      (rw (q.named, begun "p" "hotos" (join "/" user)) refl)

has_slash-join : (s t : String) → has_slash (join s t) ≡ (has_slash s || has_slash t)
unfolding has_slash
has_slash-join String.[] t = rw (nil-append t) refl
has_slash-join (String.◌∷◌ c s) t = rw (cons-append c s t) (ground (arith, has_slash-join s t))

extension-has_slash : (p : DownloadedPhoto) → has_slash (extension p) ≡ false
unfolding extension ext_from_mime has_slash
extension-has_slash p = go (ext p.filename == "")
  where
    named :
        (b c d e f : Bool)
        → has_slash (
            if b
            then ".jpg"
            else if c
            then ".png"
            else if d
            then ".gif"
            else if e
            then ".webp"
            else if f
            then ".heic"
            else ".jpg")
          ≡ false
    named true c d e f = refl
    named false true d e f = refl
    named false false true e f = refl
    named false false false true f = refl
    named false false false false true = refl
    named false false false false false = refl

    go : (b : Bool) → has_slash (if b then ext_from_mime p.mime_type else ext p.filename) ≡ false
    go true = named _ _ _ _ _
    go false = ext-has_slash p.filename

-- `uuid.New().String()`: 36 characters, none of them a slash.
pub record NamesFiles {X : Type 0} (files : Files X) : Type 0 where
  pub no_slash : (x : X) → has_slash (files.new_uuid x).0 ≡ false
  pub long : (x : X) → count (files.new_uuid x).0 ≡ 36

apart : (s t : String) → count t < count s → (s == t) ≡ false
apart s t less = elim (Bool-cases (s == t)) [
  | inl same ↦ absurd (omega (arith, less, ap count ((eq_iff s t).0 same)))
  | inr other ↦ other
]

module _ {X : Type 0} (files : Files X) (law : NamesFiles files) (ctx : Context X)
    (user job : String) (p : DownloadedPhoto) (x : X) where
  name : String
  name = join (files.new_uuid x).0 (extension p)

  name-IsPlain : IsPlain name
  unfolding name
  name-IsPlain =
      let long =
        length-append (files.new_uuid x).0 (extension p)
        ∙ ap (λ n. n + count (extension p)) (law.long x) in
      record {
        no_slash =
            has_slash-join (files.new_uuid x).0 (extension p)
            ∙ rw (law.no_slash x, extension-has_slash p) refl;
        named = apart name "" (omega (arith, long));
        not_here = apart name "." (omega (arith, long));
        not_above = apart name ".." (omega (arith, long));
      }

  saved_at :
      (path : String)
      → (save_photo files "./photos" ctx user job p x).0 ≡ ok path
      → path ≡ join_path (join_path "./photos" user) name
  unfolding save_photo name
  saved_at path h = ground arith

  save_photo-IsWritten :
      (path : String)
      → (save_photo files "./photos" ctx user job p x).0 ≡ ok path
      → IsWritten files
          (join_path "./photos" user)
          (join_path (join_path "./photos" user) name)
          p.bytes
          (files.new_uuid x).1
          (save_photo files "./photos" ctx user job p x).1
  unfolding save_photo name
  save_photo-IsWritten path h = record {
    made = ground arith;
    created = ground arith;
    copied = ground arith;
    after = ground arith;
  }

  -- For a user whose id is the plain name of a directory, a photo that is saved is a file of a plain name in
  -- the directory of that name under ./photos, whatever the photo's file name and type say: that directory is
  -- made, and the file in it, with the photo's bytes, and nothing else is done to the disk.
  pub save_photo-IsPlain :
      (path : String)
      → IsPlain user
      → (save_photo files "./photos" ctx user job p x).0 ≡ ok path
      → (file : String) × IsPlain file
        × (path ≡ join (join "photos" (join "/" user)) (join "/" file))
        × IsWritten files
            (join "photos" (join "/" user))
            path
            p.bytes
            (files.new_uuid x).1
            (save_photo files "./photos" ctx user job p x).1
  save_photo-IsPlain path plain h =
      let dir = join_path-plain user plain in
      let at = saved_at path h in
      (
        name,
        name-IsPlain,
        at ∙ ap (λ d. join_path d name) dir ∙ join_path-inside user name plain name-IsPlain,
        rw (at, ← dir) (save_photo-IsWritten path h),
      )
