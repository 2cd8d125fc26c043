-- ===== src/Service/Tests.antt =====
-- tg_service.c: the theorems on tables with one or two services.
use tgserver.Base.{◌≡◌, ◌++◌, refl, List, [], ◌∷◌, map, some, replicate, arith, ok, Bytes, with_nul}
use tgserver.Service.{
  new_service, Service, null, wild, service, default_service_size, add_service, find_service_n,
  set_service_create_parameters,
}
use tgserver.Service.Table.{
  never_set, first_of, second_of, NoNul, holding, no_services, free_behind, named, at_wild,
  behind_slots, found, add_service-holding, find_service_n-found,
}
use tgserver.Service.Parameters.{
  HasParameters, no_array, set_service_create_parameters-HasParameters,
}

abbrev nameless : Service
nameless = record new_service {
  do_create = 1;
  do_init = 2;
  do_request = 3;
  do_release = 4;
  do_destroy = 5;
}

abbrev demo : Bytes
demo = b'd' ∷ b'e' ∷ b'm' ∷ b'o' ∷ []

demo-NoNul : NoNul demo
demo-NoNul =
    ((λ e. omega arith), ((λ e. omega arith), ((λ e. omega arith), ((λ e. omega arith), tt))))

abbrev demos : List (Bytes × Service)
demos = (demo, nameless) ∷ []

add_service-holding_example :
    (add_service (some (replicate default_service_size null)) (some nameless) no_services
      ≡ ok (holding (nameless ∷ []) 9))
    × (add_service
          (some (replicate default_service_size null))
          (some nameless)
          (holding (named (demo, nameless) ∷ []) 0)
        ≡ ok (holding (named (demo, nameless) ∷ nameless ∷ []) (free_behind 0)))
    × (add_service never_set (some nameless) no_services ≡ ok (first_of nameless))
    × (add_service never_set (some (named (demo, nameless))) (first_of nameless)
        ≡ ok (second_of nameless (named (demo, nameless))))
add_service-holding_example =
    add_service-holding nameless (named (demo, nameless)) (named (demo, nameless) ∷ []) 0

-- The new table of malloc is not cleared: to look for a name that is not there reads through an
-- indeterminate pointer.
find_service_n-found_example :
    find_service_n (with_nul (b'x' ∷ [])) (record {
      table = some (map service (map named demos) ++ behind_slots (at_wild (replicate 8 wild)));
      counts = 10;
    })
    ≡ found (b'x' ∷ []) demos (at_wild (replicate 8 wild))
find_service_n-found_example =
    find_service_n-found (b'x' ∷ []) demos (at_wild (replicate 8 wild)) 10 ((λ e. omega arith), tt)
      (demo-NoNul, tt)

set_service_create_parameters-HasParameters_example :
    (q : Service) × (set_service_create_parameters demo nameless ≡ ok q)
    × HasParameters q (demo ∷ [])
set_service_create_parameters-HasParameters_example =
    set_service_create_parameters-HasParameters demo [] nameless (no_array refl)
