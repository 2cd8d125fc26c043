-- ===== src/Service/Loading/Tests.antt =====
-- tg_service.c: the theorems on loading and unloading, on a library that has the five functions.
use tgserver.Base.{
  ◌≡◌, if◌then◌else◌, refl, [], ◌∷◌, map, none, some, ok, fault, with_nul, arith, strncmp_eq,
}
use tgserver.Service.{Service, new_service, find_service_n}
use tgserver.Service.Table.{holding, free_behind, named}
use tgserver.Service.Parameters.{in_array, array}
use tgserver.Util.{get_lib_name, last_find_separator}
use tgserver.Service.Loading.{Linker, check_lib, load_service, un_load_service, unloaded}
use tgserver.Service.Loading.Loads.{HasSymbols, fresh, empty_room, loader, load_service-loader}
use tgserver.Service.Loading.Unloads.{
  all_end, all_blocks, services_of, Loaded, un_load_service-blocks,
}

-- A linker for which every library has the five functions at the lengths of their names.
abbrev any_library : Linker
any_library = record {
  dlopen = λ path. some 3;
  dlsym = λ h name. elim name [ [] ↦ none | c ∷ rest ↦ some c ];
}

abbrev functions : Service
functions = record new_service {
  do_create = b'c';
  do_init = b'i';
  do_request = b'd';
  do_release = b'r';
  do_destroy = b'd';
}

functions-HasSymbols : HasSymbols any_library 3 functions
functions-HasSymbols = record {
  has_create = refl;
  has_init = refl;
  has_do_request = refl;
  has_release = refl;
  has_destroy = refl;
}

library_loaded :
    (load_service any_library empty_room [] 0
        (some (b'd' ∷ b'/' ∷ b'm' ∷ []))
        (loader ((b'a' ∷ [], new_service) ∷ []) 0 1)
      ≡ ok (loader ((b'a' ∷ [], new_service) ∷ (b'm' ∷ [], fresh 1 functions) ∷ []) 9 2))
    × (find_service_n (with_nul (b'm' ∷ [])) (
          holding
            (map named ((b'a' ∷ [], new_service) ∷ (b'm' ∷ [], fresh 1 functions) ∷ []))
            (free_behind 0))
        ≡ ok (some (record (fresh 1 functions) { service_name = some (b'm' ∷ []) })))
library_loaded =
    load_service-loader any_library [] 0 (b'm' ∷ []) 3 1 0 functions ((b'a' ∷ [], new_service) ∷ [])
      functions-HasSymbols ((λ e. omega arith), tt) (b'd' ∷ []) refl ((λ e. omega arith), tt)
      (((λ e. omega arith), tt), tt) (refl, tt)

-- A service whose library has lost a function is not loaded.
load_service_refuses :
    load_service
      (record any_library { dlsym = λ h name. none })
      empty_room
      []
      0
      (some (b'd' ∷ b'/' ∷ b'm' ∷ []))
      (loader [] 1 0)
    ≡ ok (loader [] 1 0)
unfolding load_service check_lib
load_service_refuses = refl

-- A path without "/" has a buffer overflow.
load_service_overflows :
    load_service any_library empty_room [] 0 (some (b'm' ∷ [])) (loader [] 1 0) ≡ fault
unfolding load_service check_lib get_lib_name last_find_separator strncmp_eq
load_service_overflows = refl

-- One parameter in its array of five places.
abbrev one_parameter : Loaded
one_parameter = (
  record functions {
    service_name = some (b'm' ∷ 0 ∷ []);
    parameters = some (array ((b'p' ∷ []) ∷ []) 4);
    par_counts = 1;
  },
  (b'p' ∷ []) ∷ [],
)

un_load_service-blocks_example : un_load_service (holding (services_of (one_parameter ∷ [])) 2) ≡ (
    if all_end (one_parameter ∷ []) then ok (all_blocks (one_parameter ∷ []), unloaded) else fault)
un_load_service-blocks_example =
    un_load_service-blocks (one_parameter ∷ []) 1
      (in_array (b'p' ∷ []) [] 4 refl refl (omega arith) refl, tt)
