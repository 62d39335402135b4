-- ===== src/Base/Word.antt =====
-- Machine words as native numbers that wrap.
use Prim.Native.Nat.{ℕ, ◌+◌, ◌-◌, ◌%◌, ◌^◌}
use mathlib.Core.Bool.{Bool}
use aufs_enabled.Base.Tests.{ltb, if◌then◌else◌}

-- An `unsigned int`, an `int` (by its bit pattern) or an `unsigned long` of the value `n`.
abbrev pub u32 : ℕ → ℕ
u32 n = n % 2 ^ 32

abbrev pub u64 : ℕ → ℕ
u64 n = n % 2 ^ 64

-- The sign of an `int`.
abbrev pub is_negative : ℕ → Bool
is_negative w = ltb (2 ^ 31 - 1) w

-- An `int` assigned to an `unsigned long`: the sign is extended.
abbrev pub int_to_ulong : ℕ → ℕ
int_to_ulong w = if is_negative w then w + 2 ^ 64 - 2 ^ 32 else w
