-- ===== src/Demo.antt =====
-- plugins/demo/demo.c: the plugin that answers with the points in a shared memory. The shared
-- memory is the list of its bytes; it is `none` where there is none behind pShmPointHead. Memories
-- has the second one, of the lines, and how they are made. The lengths are those of a machine with
-- 64 bits.
pub mod Points
pub mod Answers
pub mod Served
pub mod Memories
pub mod Lives
mod Tests
use tgserver.Base.{
  ℕ, zero, suc, ◌+◌, ◌-◌, ◌*◌, ◌%◌, Bool, true, false, ◌||◌, List, [], ◌∷◌, ◌++◌, Option, none,
  some, ltb, leb, if◌then◌else◌, length, take, drop, replicate, ℤ, pos, negsuc, minus_one, Run, ok,
  fault, ◌>>=◌, Bytes, codes, strcmp_eq, with_nul, le_bytes, memcpy, write_at,
}

-- The memory of one struct point, whose two fields are (i + 1) * 15.
abbrev pub point : ℕ → Bytes
point i = le_bytes ((i + 1) * 15) ++ le_bytes ((i + 1) * 15)

-- The loop of initPoint: the number of rounds left, and i.
pub fill_points : ℕ → ℕ → Bytes → Run Bytes
fill_points zero i m = ok m
fill_points (suc left) i m = do n ← write_at (14 + i * 8) (point i) m; fill_points left (suc i) n

-- initPoint; the value of init is always 0.
unfoldable pub init_point : Option Bytes → Run Bytes
init_point none = fault
init_point (some m) = do filled ← fill_points 18 0 m; write_at 10 (le_bytes 18) filled

-- pPointSize[3] >> 24 | pPointSize[2] >> 16 | pPointSize[1] >> 8 | pPointSize[0], where a char has
-- a sign: a shift gives -1 for a negative char and 0 for another.
abbrev pub point_size : ℕ → ℕ → ℕ → ℕ → ℤ
point_size b0 b1 b2 b3 =
    if leb 128 b1 || (leb 128 b2 || leb 128 b3)
    then minus_one
    else if leb 128 b0
    then negsuc (255 - b0)
    else pos b0

-- The answer for a number of points. Behind a negative number memcpy is called for nearly 2 ^ 64
-- bytes.
pub answer_points : ℤ → Bytes → Run Bytes
answer_points (negsuc n) data_segment = fault
answer_points (pos n) data_segment =
    let all_size = (n + n * 8) % 4294967296 in
    do
      p0 ← write_at 0 (le_bytes all_size) (replicate ((all_size + 4) % 4294967296) 0)
      p1 ← write_at 4 (le_bytes n) p0
      points ← memcpy (n * 8) data_segment
      p2 ← write_at 8 points p1
      shown ← memcpy all_size data_segment
      ok p2

-- The four bytes behind the ten that are reserved.
pub count_of : Bytes → Run ℤ
count_of (b0 ∷ b1 ∷ b2 ∷ b3 ∷ rest) = ok (point_size b0 b1 b2 b3)
count_of _ = fault

-- The memory of the pointer that is returned, for the memory of a request. For another request the
-- function ends without a return, so that the pointer that the caller uses is undefined.
unfoldable pub do_request : Option Bytes → Bytes → Run Bytes
do_request shared req = do
  same ← strcmp_eq req (with_nul (codes "tg://libdemo.so/all"))
  let answered : Run Bytes = elim shared [
    | none ↦ fault
    | some m ↦ do n ← count_of (drop 10 m); answer_points n (drop 14 m)
  ]
  if same then answered else fault
