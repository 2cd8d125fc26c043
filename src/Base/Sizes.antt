-- ===== src/Base/Sizes.antt =====
-- The lengths of lists of bytes, as rules for omega.
use Prim.Native.Nat.{ℕ, ◌+◌, ◌-◌, min}
use mathlib.Core.Path.{◌≡◌}
use mathlib.Core.List.{◌++◌}
use native.Mathlib.Omega.{arith}
use tgserver.Base.Lists.{
  length, take, drop, replicate, length-append, length-take, length-drop, length-replicate,
}
use tgserver.Base.Cstr.{Bytes}

pub size-append : (a b : Bytes) → length (a ++ b) ≡ length a + length b
size-append a b = length-append a b

pub size-take : (n : ℕ) (a : Bytes) → length (take n a) ≡ min n (length a)
size-take n a = length-take n a

pub size-drop : (n : ℕ) (a : Bytes) → length (drop n a) ≡ length a - n
size-drop n a = length-drop n a

pub size-replicate : (n byte : ℕ) → length (replicate n byte) ≡ n
size-replicate n byte = length-replicate n byte

pub ruleset sizes = (arith, size-append, size-take, size-drop, size-replicate)
