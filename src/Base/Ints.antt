-- ===== src/Base/Ints.antt =====
-- Signed integers over the native numbers: descriptors, return codes and positions that may be
-- negative.
use Prim.Native.Nat.{ℕ}
use mathlib.Core.Bool.{Bool, true, false}
use tgserver.Base.Tests.{leb}

-- `negsuc n` is -(n + 1).
pub data ℤ : Type 0 where
  pos : ℕ → ℤ
  negsuc : ℕ → ℤ

abbrev pub minus_one : ℤ
minus_one = negsuc 0

-- The test `x >= 0`.
abbrev pub is_nonneg : ℤ → Bool
is_nonneg (pos n) = true
is_nonneg (negsuc n) = false

-- x <= y.
abbrev pub leb_int : ℤ → ℤ → Bool
leb_int (pos x) (pos y) = leb x y
leb_int (pos x) (negsuc y) = false
leb_int (negsuc x) (pos y) = true
leb_int (negsuc x) (negsuc y) = leb y x
