-- ===== src/Base/Cstr.antt =====
-- Bytes, C strings and the parts of the C library that the program calls on them.
-- A C string is given by its bytes before the NUL; where the code reads raw memory, a list of bytes
-- is the memory from the pointer on, its NUL included, and to read past the list is a fault.
use Prim.Native.Char.{code}
use Prim.Native.String.{String}
use Prim.Native.Nat.{ℕ, zero, suc, ◌+◌, ◌-◌, ◌*◌}
use mathlib.Core.Bool.{Bool, true, false, ◌&&◌, ◌||◌}
use mathlib.Core.List.{List, [], ◌∷◌, ◌++◌}
use tgserver.Base.Tests.{◌==◌, ltb, leb, if◌then◌else◌}
use tgserver.Base.Lists.{replicate, All}
use mathlib.Core.Path.{◌≡◌}
use mathlib.Core.Logic.{◌≢◌}
use native.Mathlib.Omega.{arith}
use tgserver.Base.Ints.{ℤ, pos, negsuc}
use tgserver.Base.Faults.{Run, ok, fault, ◌>>=◌}

abbrev pub Bytes : Type 0
Bytes = List ℕ

-- The bytes of a literal, without the NUL.
abbrev pub codes : String → Bytes
codes String.[] = []
codes (String.◌∷◌ c s) = code c ∷ codes s

-- strncmp(a, b, n) == 0, on raw memory.
unfoldable pub strncmp_eq : ℕ → Bytes → Bytes → Run Bool
strncmp_eq zero a b = ok true
strncmp_eq (suc n) (x ∷ a) (y ∷ b) =
    if x == y then if x == 0 then ok true else strncmp_eq n a b else ok false
strncmp_eq _ _ _ = fault

-- The memory of a literal or another well-formed string.
abbrev pub with_nul : Bytes → Bytes
with_nul s = s ++ 0 ∷ []

abbrev pub is_digit : ℕ → Bool
is_digit c = leb b'0' c && leb c b'9'

abbrev pub is_space : ℕ → Bool
is_space c = c == b' ' || (leb 9 c && leb c 13)

-- The digits of atoi, from the value read so far.
unfoldable pub digits_value : ℕ → Bytes → Run ℕ
digits_value acc [] = fault
digits_value acc (c ∷ s) =
    let rest = digits_value (acc * 10 + (c - b'0')) s in if is_digit c then rest else ok acc

abbrev negated : ℕ → ℤ
negated zero = pos 0
negated (suc n) = negsuc n

-- The result of atoi; C leaves a number that no int holds undefined.
abbrev pub as_int : ℕ → Run ℤ
as_int n = if ltb n 2147483648 then ok (pos n) else fault

-- The negative result.
abbrev as_negative : ℕ → Run ℤ
as_negative n = if leb n 2147483648 then ok (negated n) else fault

-- The sign of atoi.
signed_value : Bytes → Run ℤ
signed_value [] = fault
signed_value (c ∷ s) =
    if c == b'-'
    then (digits_value 0 s >>= as_negative)
    else if c == b'+'
    then (digits_value 0 s >>= as_int)
    else (digits_value 0 (c ∷ s) >>= as_int)

-- atoi on raw memory.
unfoldable pub atoi : Bytes → Run ℤ
unfolding digits_value signed_value
atoi [] = fault
atoi (c ∷ s) = let rest = atoi s in if is_space c then rest else signed_value (c ∷ s)

-- strncpy(to, from, n): what stands in the n bytes of `to`.
unfoldable pub strncpy : ℕ → Bytes → Run Bytes
strncpy zero s = ok []
strncpy (suc n) [] = fault
strncpy (suc n) (c ∷ s) =
    let rest = strncpy n s in
    if c == 0 then ok (replicate (suc n) 0) else (rest >>= λ t. ok (c ∷ t))

-- strcmp(a, b) == 0, on raw memory.
unfoldable pub strcmp_eq : Bytes → Bytes → Run Bool
strcmp_eq (x ∷ a) (y ∷ b) = if x == y then if x == 0 then ok true else strcmp_eq a b else ok false
strcmp_eq _ _ = fault

-- The bytes of a string in raw memory, up to its NUL.
unfoldable pub string_at : Bytes → Run Bytes
string_at [] = fault
string_at (c ∷ s) = let rest = string_at s in if c == 0 then ok [] else (rest >>= λ t. ok (c ∷ t))

-- The bytes of a literal differ from a given one, by evaluation.
abbrev pub lacks : ℕ → Bytes → Bool
lacks c [] = true
lacks c (x ∷ xs) = if x == c then false else lacks c xs

pub lacks-All : (c : ℕ) (xs : Bytes) → lacks c xs ≡ true → All (λ x. x ≢ c) xs
lacks-All c [] h = tt
lacks-All c (x ∷ xs) h = ((λ e. ground arith), lacks-All c xs (ground arith))
