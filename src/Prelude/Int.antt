-- ===== src/Prelude/Int.antt =====
-- Signed machine integers: exit codes, timeouts and deadlines.
use Prim.Native.Nat.{ℕ, zero, suc, ◌+◌, ◌*◌, ◌-◌, ◌%◌, ◌^◌}
use mathlib.Core.Bool.{Bool, true, false}
use sit.Prelude.Tests.{ltb, if◌then◌else◌}

-- `negsuc n` is -(n + 1).
pub data ℤ : Type 0 where
  pos : ℕ → ℤ
  negsuc : ℕ → ℤ

abbrev pub minus_one : ℤ
minus_one = negsuc 0

-- `x > 0`
abbrev pub is_pos : ℤ → Bool
is_pos (pos zero) = false
is_pos (pos (suc n)) = true
is_pos (negsuc n) = false

-- `x != 0`
abbrev pub nonzero : ℤ → Bool
nonzero (pos zero) = false
nonzero (pos (suc n)) = true
nonzero (negsuc n) = true

-- `n > x` for a time `n`
abbrev pub exceeds : ℕ → ℤ → Bool
exceeds n (pos d) = ltb d n
exceeds n (negsuc d) = true

abbrev pub two_63 : ℕ
two_63 = 2 ^ 63

abbrev pub two_64 : ℕ
two_64 = 2 ^ 64

-- The bit pattern of an int64, read back as a signed number.
abbrev pub signed64 : ℕ → ℤ
signed64 n = if ltb n two_63 then pos n else negsuc (two_64 - 1 - n)

-- `now + int64(t)*1000` in 64-bit arithmetic, for a positive timeout of `t` seconds
unfoldable pub add_seconds64 : ℕ → ℕ → ℤ
add_seconds64 now t = signed64 ((now + t * 1000) % two_64)
