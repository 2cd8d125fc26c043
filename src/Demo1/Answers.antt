-- ===== src/Demo1/Answers.antt =====
-- plugins/demo1/demo1.cpp: the points after create, and the answer, with what becomes of it in the
-- process that sends it.
use tgserver.Base.{
  ℕ, zero, suc, ◌+◌, ◌*◌, ◌≡◌, refl, [], ◌∷◌, ◌++◌, Option, none, some, ◌==◌, if◌then◌else◌,
  ==_refl, ok, fault, Bytes, codes, strcmp_eq, with_nul, le_bytes, memcpy, write_at, replicate,
  Bool-cases, inl, inr,
}
use tgserver.Context.{Client}
use tgserver.Response.{reply}
use tgserver.Demo.Points.{points_from}
use tgserver.Demo1.{
  new_line, line_memory, ShmHeader, Mapped, fill_points, fill_lines, init_point, init_line,
  map_file, create, copy_points, answer_all, do_request,
}

-- The header of a plugin that has its ten points at an address.
abbrev pub ten_points : ℕ → Option ℕ → ShmHeader
ten_points a lines = record {
  points_header = some a;
  lines_header = lines;
  points_count = 10;
  lines_count = elim lines [ none ↦ 0 | some b ↦ 10 ];
}

abbrev pub page_of : Bytes → Mapped
page_of rest = record { page = points_from 0 10 ++ rest; address = none }

abbrev pub all_of_demo1 : Bytes
all_of_demo1 = with_nul (codes "tg://libdemo1.so/all")

answers_at :
    (a b : ℕ) (lines : Option ℕ) (rest : Bytes)
    → answer_all b (ten_points a lines) (page_of rest) ≡ (
        if a == b
        then ok (le_bytes 88 ++ (le_bytes 10 ++ points_from 0 10), page_of rest)
        else fault)
unfolding answer_all copy_points write_at memcpy
answers_at a b lines rest = elim (Bool-cases (a == b)) [ inl e ↦ rw e refl | inr e ↦ rw e refl ]

-- The lines from number i on, where the first field of their ends is `before`.
abbrev pub lines_from : ℕ → ℕ → ℕ → Bytes
lines_from before i zero = []
lines_from before i (suc n) =
    line_memory (new_line before ((i + 1) * 5) ((i + 1) * 8) ((i + 1) * 25) ((i + 1) * 25))
    ++ lines_from before (suc i) n

-- On two new files, create leaves ten points and ten lines in them and unmaps both again, while the
-- header keeps their addresses. The x of the end of every line is what the memory of the object
-- held.
pub create-points :
    (before a b : ℕ) (rest more : Bytes)
    → create before
        (some a)
        (some b)
        (record { page = replicate 81 0 ++ rest; address = none })
        (record { page = replicate 161 0 ++ more; address = none })
      ≡ ok (
        ten_points a (some b),
        (page_of (0 ∷ rest), record { page = lines_from before 0 10 ++ 0 ∷ more; address = none }),
      )
unfolding create fill_points fill_lines init_point init_line map_file write_at
create-points before a b rest more = rw (==_refl a, ==_refl b) refl

-- A request for all the points reads them through the pointer of the header, whose memory is
-- unmapped: that is a fault unless mmap maps the file at the same address again. Then the answer is
-- the size 88, which counts its own four bytes, the number 10 and the points, and the process that
-- sends it reads four bytes behind it.
pub do_request-overread :
    (c : Client) (a b : ℕ) (lines : Option ℕ) (rest behind : Bytes)
    → (do_request (some b) (ten_points a lines) (all_of_demo1 ++ behind) (page_of rest) ≡ (
        if a == b
        then ok (some (le_bytes 88 ++ (le_bytes 10 ++ points_from 0 10)), page_of rest)
        else fault))
      × (reply c (some (le_bytes 88 ++ (le_bytes 10 ++ points_from 0 10))) ≡ fault)
      × (do_request none (ten_points a lines) (all_of_demo1 ++ behind) (page_of rest)
          ≡ ok (none, page_of rest))
unfolding do_request strcmp_eq reply memcpy
do_request-overread c a b lines rest behind = (
  rw (answers_at a b lines rest)
      (elim (Bool-cases (a == b)) [ inl e ↦ rw e refl | inr e ↦ rw e refl ]),
  refl,
  refl,
)
