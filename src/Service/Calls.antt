-- ===== src/Service/Calls.antt =====
-- tg_service.c: the calls of the functions of the plugins.
use tgserver.Base.{ℕ, List, [], ◌∷◌, Option, none, some, Run, ok, fault, ◌>>=◌, Bytes}
use tgserver.Service.Data.{Service, Slot, null, wild, service, Services}

-- A call by the address of the function, with its argument.
pub data Call : Type 0 where
  creates inits destroys : ℕ → Option (List (Option Bytes)) → Call
  releases : ℕ → Option ℕ → Call

abbrev pub create_call : Service → Call
create_call p = creates p.do_create p.parameters

abbrev pub init_call : Service → Call
init_call p = inits p.do_init p.parameters

abbrev pub release_call : Service → Call
release_call p = releases p.do_release p.global_data

abbrev pub destroy_call : Service → Call
destroy_call p = destroys p.do_destroy p.parameters

-- The loop of initAllServices, releaseAllServices and destroyAllServices: one call for each
-- service, up to the first NULL.
call_each : (Service → Call) → List Slot → Run (List Call)
call_each f [] = fault
call_each f (wild ∷ xs) = fault
call_each f (null ∷ xs) = ok []
call_each f (service p ∷ xs) = do rest ← call_each f xs; ok (f p ∷ rest)

-- The loop of createAllServices, which stores what the call returns. `created` is what the function
-- create of a plugin returns for its parameters.
unfoldable pub create_each :
    (ℕ → Option (List (Option Bytes)) → Option ℕ) → List Slot → Run (List Call × List Slot)
create_each created [] = fault
create_each created (wild ∷ xs) = fault
create_each created (null ∷ xs) = ok ([], null ∷ xs)
create_each created (service p ∷ xs) = do
  rest ← create_each created xs
  let q = record p { global_data = created p.do_create p.parameters }
  ok (create_call p ∷ rest.0, service q ∷ rest.1)

unfoldable pub create_all_services :
    (ℕ → Option (List (Option Bytes)) → Option ℕ) → Services → Run (List Call × Services)
unfolding create_each
create_all_services created s = elim s.table [
  | none ↦ ok ([], s)
  | some xs ↦ do r ← create_each created xs; ok (r.0, record s { table = some (r.1) })
]

unfoldable pub init_all_services : Services → Run (List Call)
unfolding call_each
init_all_services s = elim s.table [ none ↦ ok [] | some xs ↦ call_each init_call xs ]

unfoldable pub release_all_services : Services → Run (List Call)
unfolding call_each
release_all_services s = elim s.table [ none ↦ ok [] | some xs ↦ call_each release_call xs ]

unfoldable pub destroy_all_services : Services → Run (List Call)
unfolding call_each
destroy_all_services s = elim s.table [ none ↦ ok [] | some xs ↦ call_each destroy_call xs ]
