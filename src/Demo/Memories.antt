-- ===== src/Demo/Memories.antt =====
-- plugins/demo/demo.c: the functions of the plugin that make, fill and give up its two shared
-- memories. The memories belong to the kernel and outlive the processes: they are given by their
-- identifiers. What shmget and shmat give is a parameter. The keys of ftok only reach shmget.
use tgserver.Base.{
  ℕ, zero, suc, ◌+◌, ◌*◌, List, [], ◌∷◌, ◌++◌, Option, none, some, ◌==◌, if◌then◌else◌, ℤ, Run, ok,
  fault, ◌>>=◌, Bytes, le_bytes, write_at,
}
use tgserver.Context.Signals.{is_minus_one}
use tgserver.Demo.{init_point, do_request}

-- pShmLineHead and pShmPointHead: NULL, or the memory that is attached there. `lost` is (void *)-1,
-- which shmat returns where it fails, and an address from which shmdt has taken the memory.
pub data Pointer : Type 0 where
  null lost : Pointer
  at : ℕ → Pointer

-- The variables of the plugin, and the memories by their identifiers.
pub record Shared : Type 0 where
  pub line_id : ℤ
  pub point_id : ℤ
  pub line_head : Pointer
  pub point_head : Pointer
  pub memories : ℕ → Option Bytes

abbrev pub pointed : Pointer → Shared → Option Bytes
pointed null s = none
pointed lost s = none
pointed (at k) s = s.memories k

abbrev pub attach : (ℤ → Pointer) → ℤ → Pointer → Pointer
attach shmat id old = if is_minus_one id then old else shmat id

-- The value is the struct Head, with pLineShmHead and pPointShmHead.
unfoldable pub create : ℤ → ℤ → (ℤ → Pointer) → Shared → (Pointer × Pointer) × Shared
create line_id point_id shmat s =
    let line = attach shmat line_id s.line_head in
    let point = attach shmat point_id s.point_head in
    (
      (line, point),
      record s { line_id = line_id; point_id = point_id; line_head = line; point_head = point },
    )

-- What a function writes through a pointer.
abbrev pub written : (Option Bytes → Run Bytes) → Pointer → Shared → Run Shared
written f null s = f none >>= λ m. ok s
written f lost s = f none >>= λ m. ok s
written f (at k) s = do
  m ← f (s.memories k)
  ok (record s { memories = λ j. if j == k then some m else s.memories j })

-- init, which always returns 0.
unfoldable pub init : Shared → Run Shared
init s = written init_point s.point_head s

-- The memory of one struct line.
abbrev pub line : ℕ → Bytes
line i =
    le_bytes ((i + 1) * 15)
    ++ (le_bytes ((i + 1) * 15) ++ (le_bytes ((i + 1) * 25) ++ le_bytes ((i + 1) * 25)))

pub fill_lines : ℕ → ℕ → Bytes → Run Bytes
fill_lines zero i m = ok m
fill_lines (suc left) i m = do n ← write_at (14 + i * 16) (line i) m; fill_lines left (suc i) n

unfoldable pub init_line : Shared → Run Shared
unfolding fill_lines
init_line s =
    written
      (λ o. elim o [
        | none ↦ fault
        | some m ↦ do filled ← fill_lines 19 0 m; write_at 10 (le_bytes 19) filled
      ])
      s.line_head s

unfoldable pub request : Shared → Bytes → Run Bytes
request s req = do_request (pointed s.point_head s) req

-- shmdt: the address of a memory is one of none from then on; for another the call only fails.
abbrev pub shmdt : Pointer → Pointer
shmdt null = null
shmdt lost = lost
shmdt (at k) = lost

-- release, which always returns 0 and keeps the two addresses.
unfoldable pub release : Shared → Shared
release s = record s { line_head = shmdt s.line_head; point_head = shmdt s.point_head }

-- The identifiers that destroy hands to shmctl with IPC_RMID.
unfoldable pub destroy : Shared → List ℤ
destroy s = s.line_id ∷ s.point_id ∷ []
