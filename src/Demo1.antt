-- ===== src/Demo1.antt =====
-- plugins/demo1/demo1.cpp, header.cpp, header.h, Point.h and Line.h: the plugin that keeps its
-- points in a file that is mapped into memory. Each of the two files is the page that mmap maps,
-- and the address where it is mapped, `none` where it is not. What open and mmap give is a
-- parameter.
pub mod Answers
pub mod Breaches
mod Tests
use tgserver.Base.{
  ℕ, zero, suc, ◌+◌, ◌*◌, Bool, true, false, List, [], ◌∷◌, ◌++◌, Option, none, some, ◌==◌,
  if◌then◌else◌, ℤ, Run, ok, fault, ◌>>=◌, Bytes, codes, strcmp_eq, with_nul, le_bytes, memcpy,
  write_at, replicate, drop,
}

-- PPoint.
pub record Point : Type 0 where
  pub x : ℕ
  pub y : ℕ

-- PLine.
pub record Line : Type 0 where
  pub x : ℕ
  pub y : ℕ
  pub end_x : ℕ
  pub end_y : ℕ

-- The constructor of PLine, which sets mEndY twice; mEndX stays what the memory of the object held.
abbrev pub new_line : ℕ → ℕ → ℕ → ℕ → ℕ → Line
new_line before x y endx endy = record { x = x; y = y; end_x = before; end_y = endy }

abbrev pub point_memory : Point → Bytes
point_memory p = le_bytes p.x ++ le_bytes p.y

abbrev pub line_memory : Line → Bytes
line_memory l = le_bytes l.x ++ (le_bytes l.y ++ (le_bytes l.end_x ++ le_bytes l.end_y))

-- ShmHeader; a header of `none` is NULL.
pub record ShmHeader : Type 0 where
  pub points_header : Option ℕ
  pub lines_header : Option ℕ
  pub points_count : ℕ
  pub lines_count : ℕ

abbrev pub new_header : ShmHeader
new_header = record { points_header = none; lines_header = none; points_count = 0; lines_count = 0 }

pub record Mapped : Type 0 where
  pub page : Bytes
  pub address : Option ℕ

-- The page that the pointer a is in.
abbrev pub at_address : ℕ → Mapped → Run Bytes
at_address a f = elim f.address [ none ↦ fault | some b ↦ if a == b then ok f.page else fault ]

abbrev pub munmap : ℕ → Mapped → Mapped
munmap a f = elim f.address [
  | none ↦ f
  | some b ↦ if a == b then record f { address = none } else f
]

-- The loops of initPoint and initLine: the number of rounds left, and i.
fill_points : ℕ → ℕ → Bytes → Run Bytes
fill_points zero i m = ok m
fill_points (suc left) i m = do
  n ← write_at (i * 8) (point_memory (record { x = (i + 1) * 15; y = (i + 1) * 15 })) m
  fill_points left (suc i) n

fill_lines : ℕ → ℕ → ℕ → Bytes → Run Bytes
fill_lines before zero i m = ok m
fill_lines before (suc left) i m = do
  let l = new_line before ((i + 1) * 5) ((i + 1) * 8) ((i + 1) * 25) ((i + 1) * 25)
  n ← write_at (i * 16) (line_memory l) m
  fill_lines before left (suc i) n

pub init_point : ShmHeader → Mapped → Run Mapped
unfolding fill_points
init_point g f = elim g.points_header [
  | none ↦ ok f
  | some a ↦ do
    m ← at_address a f
    n ← fill_points g.points_count 0 m
    ok (munmap a (record f { page = n }))
]

-- `before` is the memory that the field mEndX of the object held.
pub init_line : ℕ → ShmHeader → Mapped → Run Mapped
unfolding fill_lines
init_line before g f = elim g.lines_header [
  | none ↦ ok f
  | some a ↦ do
    m ← at_address a f
    n ← fill_lines before g.lines_count 0 m
    ok (munmap a (record f { page = n }))
]

-- A file that is opened, written to at an offset and mapped: `at` is none where open fails.
map_file : ℕ → Option ℕ → Mapped → Run Mapped
map_file offset none f = ok f
map_file offset (some a) f = do
  m ← write_at offset (0 ∷ []) f.page
  ok (record { page = m; address = some a })

-- create: the header, and the two files behind it. The value of create is NULL.
unfoldable pub create :
    ℕ → Option ℕ → Option ℕ → Mapped → Mapped → Run (ShmHeader × (Mapped × Mapped))
unfolding map_file init_point init_line
create before at_points at_lines points lines =
    let g : ShmHeader = record {
      points_header = at_points;
      lines_header = at_lines;
      points_count = elim at_points [ none ↦ 0 | some a ↦ 10 ];
      lines_count = elim at_lines [ none ↦ 0 | some a ↦ 10 ];
    } in
    do
      p ← map_file 80 at_points points
      l ← map_file 160 at_lines lines
      p1 ← init_point g p
      l1 ← init_line before g l
      ok (g, (p1, l1))

-- The loop of do_request, which copies the points into the answer.
copy_points : ℕ → ℕ → Bytes → Bytes → Run Bytes
copy_points zero i m d = ok d
copy_points (suc left) i m d = do
  p ← memcpy 8 (drop (i * 8) m)
  e ← write_at (i * 8 + 8) p d
  copy_points left (suc i) m e

-- The answer: `mapped` is where mmap maps the file of the points, which is not mapped before. The
-- points are read through the pointer of the header. Without a header there is no point to copy.
answer_all : ℕ → ShmHeader → Mapped → Run (Bytes × Mapped)
unfolding copy_points
answer_all mapped g f =
    let all_size = g.points_count * 8 + 4 + 4 in
    let now : Mapped = record f { address = some mapped } in
    do
      d0 ← write_at 0 (le_bytes all_size) (replicate all_size 0)
      d1 ← write_at 4 (le_bytes g.points_count) d0
      elim g.points_header [
        | none ↦ do d ← copy_points g.points_count 0 [] d1; ok (d, now)
        | some a ↦ do
          m ← at_address a now
          d ← copy_points g.points_count 0 m d1
          ok (d, munmap a now)
      ]

-- do_request on the header, with `mapped` none where open fails: the memory that is returned, none
-- for NULL, and the file. For another request the function ends without a return.
unfoldable pub do_request : Option ℕ → ShmHeader → Bytes → Mapped → Run (Option Bytes × Mapped)
unfolding answer_all
do_request mapped g req f = do
  same ← strcmp_eq req (with_nul (codes "tg://libdemo1.so/all"))
  let answered : Run (Option Bytes × Mapped) = elim mapped [
    | none ↦ ok (none, f)
    | some b ↦ (answer_all b g f >>= λ r. ok (some (r.0), r.1))
  ]
  if same then answered else fault

-- init and release, which end without a return. In C++ that is undefined.
unfoldable pub init : Run ℤ
init = fault

unfoldable pub release : Run ℤ
release = fault

-- The calls behind create work on g_header, and so does destroy, which leaves NULL.
unfoldable pub request : Option ℕ → Option ShmHeader → Bytes → Mapped → Run (Option Bytes × Mapped)
request mapped none req f = do same ← strcmp_eq req (with_nul (codes "tg://libdemo1.so/all")); fault
request mapped (some g) req f = do_request mapped g req f

-- The header, and whether there was one to be deleted.
unfoldable pub destroy : Option ShmHeader → Option ShmHeader × Bool
destroy none = (none, false)
destroy (some g) = (none, true)
