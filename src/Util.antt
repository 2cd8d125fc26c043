-- ===== src/Util.antt =====
-- tg_util.c: searching a separator in a string, and the file name of a path.
-- getTGServerPid only calls getpid and is not modelled.
pub mod Search
pub mod Fronts
mod Tests
use tgserver.Base.{
  ℕ, zero, suc, ◌+◌, ◌-◌, [], ◌∷◌, Option, none, some, ltb, if◌then◌else◌, length, get_elem?, take,
  drop, ℤ, pos, negsuc, minus_one, Run, ok, fault, ◌>>=◌, Bytes, strncmp_eq, with_nul,
}

-- The name is the value of *ppName, which stays where the path has no "/".
cut_name : Bytes → ℤ → Option Bytes → Option Bytes
cut_name path (negsuc n) name = name
cut_name path (pos p) name =
    let nsize = length path + 1 - p in some (take (nsize - 1) (drop (p + 1) path))

-- `stack` is the memory behind the local variable `pt`, which strncmp reads if the separator is
-- longer than one byte.
module _ (stack : Bytes) where
  -- The loop of findSeparator: the rounds left, the memory of `c` from `pos` on, and `pos`.
  find_loop : ℕ → Bytes → ℕ → Bytes → Run ℤ
  find_loop zero mem p sepor = ok minus_one
  find_loop (suc rounds) [] p sepor = fault
  find_loop (suc rounds) (pt ∷ mem) p sepor = do
    hit ← strncmp_eq (length sepor) (pt ∷ stack) (with_nul sepor)
    let rest = find_loop rounds mem (p + 1) sepor
    if hit then ok (pos p) else rest

  unfoldable pub find_separator : Option Bytes → Option Bytes → Run ℤ
  unfolding find_loop
  find_separator none sepor = ok minus_one
  find_separator (some source) none = ok minus_one
  find_separator (some source) (some sepor) =
      let s_len = length sepor in
      let f_len = length source in
      if ltb f_len s_len
      then ok minus_one
      else find_loop (suc (f_len - s_len)) (with_nul source) 0 sepor

  -- The loop of lastFindSeparator. The argument k is `pos` at the test `pos-- >= 0`, so that the
  -- body looks at c[k - 1]; `before` is the byte of memory in front of `c`, which the body reads in
  -- its last round, at pos = -1. After that round pos is -2.
  last_loop : ℕ → Bytes → ℕ → Bytes → Run ℤ
  last_loop before mem zero sepor = do
    hit ← strncmp_eq (length sepor) (before ∷ stack) (with_nul sepor)
    ok (if hit then minus_one else negsuc 1)
  last_loop before mem (suc k) sepor = elim (get_elem? mem k) [
    | none ↦ fault
    | some pt ↦ do
      hit ← strncmp_eq (length sepor) (pt ∷ stack) (with_nul sepor)
      let rest = last_loop before mem k sepor
      if hit then ok (pos k) else rest
  ]

  unfoldable pub last_find_separator : ℕ → Option Bytes → Option Bytes → Run ℤ
  unfolding last_loop
  last_find_separator before none sepor = ok minus_one
  last_find_separator before (some source) none = ok minus_one
  last_find_separator before (some source) (some sepor) =
      let s_len = length sepor in
      let f_len = length source in
      if ltb f_len s_len
      then ok minus_one
      else last_loop before (with_nul source) (f_len - s_len + 1) sepor

  unfoldable pub get_lib_name : ℕ → Option Bytes → Option Bytes → Run (Option Bytes)
  unfolding cut_name
  get_lib_name before none name = ok name
  get_lib_name before (some path) name = do
    p ← last_find_separator before (some path) (some (b'/' ∷ []))
    ok (cut_name path p name)
