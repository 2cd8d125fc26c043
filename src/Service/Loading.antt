-- ===== src/Service/Loading.antt =====
-- tg_service.c: a library becomes a service, and all services are unloaded. The dynamic linker is a
-- parameter: dlopen gives a handle and dlsym an address, `none` where they give NULL. What is freed
-- is the result of unloading, block by block.
pub mod Loads
pub mod Unloads
mod Tests
use tgserver.Base.{
  codes, ℕ, suc, ◌+◌, List, [], ◌∷◌, ◌++◌, Option, none, some, ℤ, pos, minus_one, Run, ok, fault,
  ◌>>=◌, Bytes, with_nul, memcpy,
}
use tgserver.Service.{Service, new_service, Slot, null, wild, service, Services, add_service}
use tgserver.Util.{get_lib_name}

pub record Linker : Type 0 where
  pub dlopen : Bytes → Option ℕ
  pub dlsym : ℕ → Bytes → Option ℕ

-- The table of the services, and the static variable sID of checkLib.
pub record Loader : Type 0 where
  pub services : Services
  pub next_id : ℕ

-- The structure that checkLib fills where all five functions are there.
pub service_of : ℕ → Option ℕ → Option ℕ → Option ℕ → Option ℕ → Option ℕ → Option Service
service_of id (some c) (some i) (some q) (some r) (some d) = some (record new_service {
  s_id = id;
  do_create = c;
  do_init = i;
  do_request = q;
  do_release = r;
  do_destroy = d;
})
service_of id _ _ _ _ _ = none

module _ (linker : Linker) where
  -- checkLib on a handle: the service, or `none` where it returns -1.
  unfoldable pub check_lib : ℕ → ℕ → Option Service
  unfolding service_of
  check_lib h id =
      service_of id (linker.dlsym h (codes "create")) (linker.dlsym h (codes "init"))
        (linker.dlsym h (codes "do_request")) (linker.dlsym h (codes "release"))
        (linker.dlsym h (codes "destroy"))

  module _ (room : Option (List Slot)) (stack : Bytes) (before : ℕ) where
    -- The service gets its name and goes into the table. Without a name ten bytes are written into
    -- a buffer of four.
    add_named : Option Bytes → Service → Loader → Run Loader
    add_named none p s = fault
    add_named (some name) p s = do
      t ← add_service room (some (record p { service_name = some (with_nul name) })) s.services
      ok (record { services = t; next_id = s.next_id + 1 })

    load_library : Bytes → ℕ → Loader → Run Loader
    unfolding add_named
    load_library path h s = elim (check_lib h s.next_id) [
      | none ↦ ok s
      | some p ↦ do name ← get_lib_name stack before (some path) none; add_named name p s
    ]

    -- loadService. `room`, `stack` and `before` are the memory for a larger table and what
    -- getLibName may look at.
    unfoldable pub load_service : Option Bytes → Loader → Run Loader
    unfolding load_library
    load_service none s = ok s
    load_service (some []) s = ok s
    load_service (some (c ∷ path)) s = elim (linker.dlopen (c ∷ path)) [
      | none ↦ ok s
      | some h ↦ load_library (c ∷ path) h s
    ]

-- The loop over the parameters of a service, up to the first NULL.
free_parameters : List (Option Bytes) → Run (List Bytes)
free_parameters [] = fault
free_parameters (none ∷ xs) = ok []
free_parameters (some b ∷ xs) = do rest ← free_parameters xs; ok (b ∷ rest)

free_service : Service → Run (List Bytes)
unfolding free_parameters
free_service p = do
  freed ← elim p.parameters [ none ↦ ok [] | some xs ↦ free_parameters xs ]
  ok (elim p.service_name [ none ↦ freed | some name ↦ name ∷ freed ])

-- The loop of unLoadService over the services. The structures themselves are not freed.
free_each : List Slot → Run (List Bytes)
unfolding free_service
free_each [] = fault
free_each (wild ∷ xs) = fault
free_each (null ∷ xs) = ok []
free_each (service p ∷ xs) = do freed ← free_service p; rest ← free_each xs; ok (freed ++ rest)

abbrev pub unloaded : Services
unloaded = record { table = none; counts = 0 }

-- unLoadService; the memset behind the loop is over g_services_counts slots.
unfoldable pub un_load_service : Services → Run (List Bytes × Services)
unfolding free_each
un_load_service s = elim s.table [
  | none ↦ ok ([], s)
  | some xs ↦ do freed ← free_each xs; cleared ← memcpy s.counts xs; ok (freed, unloaded)
]
