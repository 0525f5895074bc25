-- ===== src/Base/Int64.antt =====
-- Go's `int64`: signed integers over the native numbers, with the wrap-around written out.
use Prim.Native.Nat.{ℕ, ◌+◌, ◌-◌, ◌%◌, ◌^◌, ◌<◌}
use mathlib.Core.Path.{◌≡◌, refl}
use mathlib.Core.Bool.{Bool, true, false}
use native.Mathlib.Omega.{arith}
use google_photos_picker.Base.Tests.{ltb, if◌then◌else◌}

-- `negsuc n` is -(n + 1).
pub data ℤ : Type 0 where
  pos : ℕ → ℤ
  negsuc : ℕ → ℤ

-- The integer that a bit pattern below 2 ^ 64 stands for.
abbrev pub of_bits : ℕ → ℤ
of_bits m = if ltb m (2 ^ 63) then pos m else negsuc (2 ^ 64 - 1 - m)

-- The value of `n` as an `int64`.
abbrev pub to_int64 : ℕ → ℤ
to_int64 n = of_bits (n % 2 ^ 64)

-- `a < b`
abbrev pub ltb_ℤ : ℤ → ℤ → Bool
ltb_ℤ (pos a) (pos b) = ltb a b
ltb_ℤ (pos a) (negsuc b) = false
ltb_ℤ (negsuc a) (pos b) = true
ltb_ℤ (negsuc a) (negsuc b) = ltb b a

-- `a + 1`, which wraps at the largest `int64`.
unfoldable pub increment : ℤ → ℤ
increment (pos n) = to_int64 (n + 1)
increment (negsuc n) = if ltb 0 n then negsuc (n - 1) else pos 0

-- `max(a, 0)`: how many bytes a limit of `a` lets through.
abbrev pub to_ℕ : ℤ → ℕ
to_ℕ (pos n) = n
to_ℕ (negsuc n) = 0

pub increment_pos : (n : ℕ) → n < 2 ^ 63 - 1 → increment (pos n) ≡ pos (n + 1)
unfolding increment
increment_pos n h = ground arith

pub increment_max : increment (pos (2 ^ 63 - 1)) ≡ negsuc (2 ^ 63 - 1)
unfolding increment
increment_max = refl
