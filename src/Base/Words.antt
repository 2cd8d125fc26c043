-- ===== src/Base/Words.antt =====
-- The 32-bit length of a frame: its four bytes, least significant first, and the int that they
-- give.
use Prim.Native.Nat.{ℕ, ◌+◌, ◌-◌, ◌*◌, ◌/◌, ◌%◌, ◌<◌}
use mathlib.Core.Path.{◌≡◌}
use mathlib.Core.List.{[], ◌∷◌}
use native.Mathlib.Omega.{arith}
use tgserver.Base.Tests.{ltb, if◌then◌else◌}
use tgserver.Base.Ints.{ℤ, pos, negsuc}
use tgserver.Base.Cstr.{Bytes}

-- b3 << 24 | b2 << 16 | b1 << 8 | b0 for bytes, whose bits do not meet.
abbrev pub le_value : ℕ → ℕ → ℕ → ℕ → ℕ
le_value b0 b1 b2 b3 = b0 + b1 * 256 + b2 * 65536 + b3 * 16777216

-- The int with these 32 bits.
abbrev pub to_int : ℕ → ℤ
to_int w = if ltb w 2147483648 then pos w else negsuc (4294967296 - w - 1)

-- INT_MAX.
abbrev pub int_max : ℕ
int_max = 2147483647

-- The memory of an int that is not negative.
abbrev pub le_bytes : ℕ → Bytes
le_bytes n = (n % 256) ∷ (n / 256 % 256) ∷ (n / 65536 % 256) ∷ (n / 16777216 % 256) ∷ []

pub le_value-le_bytes :
    (n : ℕ)
    → n < 4294967296
    → le_value (n % 256) (n / 256 % 256) (n / 65536 % 256) (n / 16777216 % 256) ≡ n
le_value-le_bytes n h = omega arith

pub to_int-small : (n : ℕ) → n < 2147483648 → to_int n ≡ pos n
to_int-small n h = ground arith
