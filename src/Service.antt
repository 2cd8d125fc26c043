-- ===== src/Service.antt =====
-- tg_service.c: the table of the loaded services and their parameters. A slot of the table is NULL,
-- points to a service, or holds what malloc left there: the source does not clear a new table.
-- Loops run to the first NULL, as in the source, so that a read behind the array or through an
-- indeterminate pointer is a fault. The memory that malloc gives is an argument, `none` where it
-- fails.
mod Data
mod Calls
pub mod Table
pub mod Parameters
pub mod Loading
mod Tests
unfoldable pub use Data.*
unfoldable pub use Calls.*
use tgserver.Base.{
  ℕ, zero, suc, ◌+◌, ◌-◌, ◌%◌, Bool, true, false, not, ◌&&◌, List, [], ◌∷◌, ◌++◌, Option, none,
  some, ◌==◌, if◌then◌else◌, length, take, replicate, memcpy, store, ℤ, pos, minus_one, Run, ok,
  fault, ◌>>=◌, Bytes, strcmp_eq, string_at, with_nul,
}

-- appendGServiceArrayCount: the return code and the table. `room` is the memory behind the slots
-- that are copied.
append_g_service_array_count : Option (List Slot) → Services → Run (ℤ × Services)
append_g_service_array_count none s = ok (minus_one, s)
append_g_service_array_count (some room) s = elim s.table [
  | none ↦ ok (pos 0, record { table = some room; counts = s.counts + default_service_size })
  | some old ↦ do
    copied ← memcpy s.counts old
    ok (pos 0, record { table = some (copied ++ room); counts = s.counts + default_service_size })
]

-- The loop of addService: the table with the service in the first NULL slot, or `none`.
pub fill_slot : ℕ → Service → List Slot → Run (Option (List Slot))
fill_slot zero p xs = ok none
fill_slot (suc n) p [] = fault
fill_slot (suc n) p (null ∷ xs) = ok (some (service p ∷ xs))
fill_slot (suc n) p (x ∷ xs) = do
  r ← fill_slot n p xs
  ok (elim r [ none ↦ none | some ys ↦ some (x ∷ ys) ])

abbrev pub slots : Services → List Slot
slots s = elim s.table [ none ↦ [] | some xs ↦ xs ]

-- The end of addService where no slot is NULL: the service is lost where malloc fails.
add_behind : Option (List Slot) → Service → Services → Run Services
unfolding append_g_service_array_count
add_behind room p s = do
  r ← append_g_service_array_count room s
  elim r.0 [
    | pos zero ↦ do
      xs ← store (slots r.1) s.counts (service p)
      ok (record (r.1) { table = some xs })
    | _ ↦ ok (r.1)
  ]

unfoldable pub add_service : Option (List Slot) → Option Service → Services → Run Services
unfolding append_g_service_array_count fill_slot add_behind
add_service room none s = ok s
add_service room (some p) s = elim s.table [
  | none ↦ do
    r ← append_g_service_array_count room s
    xs ← store (slots r.1) 0 (service p)
    ok (record (r.1) { table = some xs })
  | some old ↦ do
    filled ← fill_slot s.counts p old
    elim filled [ some xs ↦ ok (record s { table = some xs }) | none ↦ add_behind room p s ]
]

-- copyService: the copy of a name has no NUL behind it, the buffer is as long as the name.
pub copy_service : Service → Run Service
copy_service p = elim p.service_name [
  | none ↦ ok (record p { service_name = none })
  | some name ↦ do copied ← string_at name; ok (record p { service_name = some copied })
]

-- The loop of findServiceI.
find_slot_i : ℕ → List Slot → Run (Option Service)
unfolding copy_service
find_slot_i id [] = fault
find_slot_i id (wild ∷ xs) = fault
find_slot_i id (null ∷ xs) = ok none
find_slot_i id (service p ∷ xs) =
    let rest = find_slot_i id xs in
    if p.s_id == id then (copy_service p >>= λ c. ok (some c)) else rest

unfoldable pub find_service_i : ℕ → Services → Run (Option Service)
unfolding find_slot_i
find_service_i id s = elim s.table [ none ↦ ok none | some xs ↦ find_slot_i id xs ]

-- The loop of findServiceN and setServiceCreateParametersByN: the position of the service, or
-- `none` at the first NULL and at the first service that has no name.
pub find_position : Bytes → ℕ → List Slot → Run (Option (ℕ × Service))
find_position name i [] = fault
find_position name i (wild ∷ xs) = fault
find_position name i (null ∷ xs) = ok none
find_position name i (service p ∷ xs) =
    let rest = find_position name (i + 1) xs in
    elim p.service_name [
      | none ↦ ok none
      | some n ↦ do same ← strcmp_eq n name; if same then ok (some (i, p)) else rest
    ]

unfoldable pub find_service_n : Bytes → Services → Run (Option Service)
unfolding find_position copy_service
find_service_n name s = elim s.table [
  | none ↦ ok none
  | some xs ↦ do
    r ← find_position name 0 xs
    elim r [ none ↦ ok none | some (i, p) ↦ (copy_service p >>= λ c. ok (some c)) ]
]

-- The array that the next parameter goes to, and the count: a new one where there is none, and one
-- with five places more where the old one is full.
pub grow_parameters : Service → Run (List (Option Bytes) × ℕ)
grow_parameters p = elim p.parameters [
  | none ↦ ok (replicate default_para_counts none, 0)
  | some old ↦
      if not (p.par_counts == 0) && p.par_counts % default_para_counts == 0
      then (do
        copied ← memcpy p.par_counts old
        ok (copied ++ replicate default_para_counts none, p.par_counts))
      else ok (old, p.par_counts)
]

-- setServiceCreateParameters for a service that is there; the parameter is copied.
unfoldable pub set_service_create_parameters : Bytes → Service → Run Service
unfolding grow_parameters
set_service_create_parameters para p = do
  grown ← grow_parameters p
  xs ← store grown.0 grown.1 (some (with_nul para))
  ok (record p { parameters = some xs; par_counts = grown.1 + 1 })

-- setServiceCreateParametersByN. A name that is empty, or not found, changes nothing.
unfoldable pub set_service_create_parameters_by_n : Bytes → Bytes → Services → Run Services
unfolding find_position
set_service_create_parameters_by_n [] para s = fault
set_service_create_parameters_by_n (c ∷ name) para s = elim s.table [
  | none ↦ ok s
  | some xs ↦ if c == 0 then ok s else (do
    r ← find_position (c ∷ name) 0 xs
    elim r [
      | none ↦ ok s
      | some (i, p) ↦ do
        q ← set_service_create_parameters para p
        ys ← store xs i (service q)
        ok (record s { table = some ys })
    ])
]
