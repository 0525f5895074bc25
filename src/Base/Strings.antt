-- ===== src/Base/Strings.antt =====
-- Go's package strings on bytes: a text is cut at byte positions, as `slice` cuts it.
use Prim.Native.Nat.{◌-◌}
use Prim.Native.String.{String, ◌++◌ as join, len, slice}
use mathlib.Core.Path.{◌≡◌, refl}
use mathlib.Core.Bool.{Bool, true, false, ◌&&◌}
use mathlib.Core.Option.{none, some}
use native.Mathlib.Omega.{arith}
use text.Mathlib.Text.{◌==◌, starts_with, find?}
use text.Mathlib.TextPositions.{
  eq_refl, len-append, starts_with-append, slice-append_left, slice-append_right,
}
use google_photos_picker.Base.Tests.{leb, if◌then◌else◌}

-- `strings.HasPrefix` is `starts_with`.
-- `strings.TrimPrefix`
unfoldable pub trim_prefix : String → String → String
trim_prefix s prefix = if starts_with s prefix then slice s (len prefix) (len s) else s

-- `strings.HasSuffix`
unfoldable pub has_suffix : String → String → Bool
has_suffix s suffix = leb (len suffix) (len s) && slice s (len s - len suffix) (len s) == suffix

-- `strings.TrimSuffix`
unfoldable pub trim_suffix : String → String → String
unfolding has_suffix
trim_suffix s suffix = if has_suffix s suffix then slice s 0 (len s - len suffix) else s

-- `strings.Contains`
unfoldable pub contains : String → String → Bool
contains s sub = elim (find? s sub) [ none ↦ false | some at ↦ true ]

pub trim_prefix-append : (prefix s : String) → trim_prefix (join prefix s) prefix ≡ s
unfolding trim_prefix
trim_prefix-append prefix s =
    rw (starts_with-append prefix s, len-append prefix s) (slice-append_right prefix s)

end_of : (s suffix : String) → len (join s suffix) - len suffix ≡ len s
end_of s suffix = rw (len-append s suffix) (omega arith)

pub has_suffix-append : (s suffix : String) → has_suffix (join s suffix) suffix ≡ true
unfolding has_suffix
has_suffix-append s suffix =
    rw (end_of s suffix, len-append s suffix, slice-append_right s suffix, eq_refl suffix)
      (ground arith)

pub trim_suffix-append : (s suffix : String) → trim_suffix (join s suffix) suffix ≡ s
unfolding trim_suffix
trim_suffix-append s suffix =
    rw (has_suffix-append s suffix, end_of s suffix) (slice-append_left s suffix)

trimmed : trim_suffix "abc/import" "/import" ≡ "abc"
unfolding trim_suffix has_suffix
trimmed = refl

kept_whole : trim_suffix "import" "/import" ≡ "import"
unfolding trim_suffix has_suffix
kept_whole = refl

within : contains "image/jpeg" "jpeg" ≡ true
unfolding contains
within = refl
