-- ===== src/Server/Startup/Tests.antt =====
-- tg_server.c and main.c: the theorems on concrete arguments, and a start.
use tgserver.Base.{
  map, get_elem?, true, false, with_nul, lacks-All, codes, ℕ, ◌≡◌, ◌++◌, refl, List, [], ◌∷◌, none,
  some, Option, replicate, pos, ok, Bytes, ◌>>=◌, strncmp_eq, atoi, digits_value,
}
use tgserver.Context.{shutdown_fd, close_fd, initial_context, initial_server, init}
use tgserver.Context.Table.{with_table}
use tgserver.Service.{set_service_create_parameters_by_n, Services, create_all_services}
use tgserver.Service.Loading.{Loader}
use tgserver.Service.{Service, new_service}
use tgserver.Service.Loading.Loads.{fresh}
use tgserver.Server.{read_conf_line, parse_parameter}
use tgserver.Server.Plugins.{init_plugin}
use tgserver.Server.Startup.{Host, exits, starts, main, init_context, init_arguments}
use tgserver.Server.Startup.Arguments.{
  nothing_set, no_value, main-exits, read_conf_line-init_plugin,
}
use tgserver.Util.{find_separator}

-- A machine without libraries and files.
abbrev bare : Host
bare = record {
  linker = record { dlopen = λ path. none; dlsym = λ h name. none };
  home = none;
  directory = λ path. none;
  file = λ path. none;
}

abbrev no_services : Services
no_services = record { table = none; counts = 0 }

abbrev no_loader : Loader
no_loader = record { services = no_services; next_id = 0 }

abbrev nothing_created : ℕ → Option (List (Option Bytes)) → Option ℕ
nothing_created f ps = none

-- The arguments -p 80.
main_starts :
    main bare none [] 0 nothing_created (codes "-p" ∷ codes "80" ∷ []) (nothing_set, no_loader)
    ≡ ok (
        starts []
          (with_table
            (replicate 20 none)
            (record initial_context { server = some (record initial_server { port = pos 80 }) }))
          no_services)
unfolding main init_context init_arguments init parse_parameter init_plugin create_all_services
    find_separator strncmp_eq atoi digits_value
main_starts = refl

main-exits_example :
    main bare none [] 0 nothing_created (codes "-p" ∷ []) (nothing_set, no_loader)
    ≡ ok (exits 1 (shutdown_fd (pos 0) ∷ close_fd (pos 0) ∷ close_fd (pos 0) ∷ []))
main-exits_example =
    main-exits bare none [] 0 nothing_created (codes "-p" ∷ []) no_loader
      (no_value b'-' (b'p' ∷ [])) refl refl refl

read_conf_line-init_plugin_example :
    (read_conf_line []
        (codes "[D]" ++ (codes "demo" ++ b'=' ∷ (codes "x=1" ++ 10 ∷ [])))
        (nothing_set, no_services)
      ≡ (set_service_create_parameters_by_n
            (with_nul (codes "demo"))
            (codes "x=1" ++ 10 ∷ [])
            no_services
          >>= λ q. ok (nothing_set, q)))
    × (init_plugin [] (codes "-D" ∷ (codes "demo" ++ b'=' ∷ codes "x=1") ∷ []) no_services
        ≡ set_service_create_parameters_by_n (with_nul (codes "demo")) (codes "x=1") no_services)
read_conf_line-init_plugin_example =
    read_conf_line-init_plugin [] (codes "demo") (codes "x=1") nothing_set no_services
      (lacks-All b'=' (codes "demo") refl)

-- A machine with a directory of three files, one of which is not regular and one no library.
abbrev equipped : Host
equipped = record bare {
  linker = record {
    dlopen = λ path. get_elem? (map (λ c. 3) path) 13;
    dlsym = λ h name. elim name [ [] ↦ none | c ∷ rest ↦ some c ];
  };
  directory = λ path. some (
      record { name = codes "."; regular = false }
      ∷ record { name = codes "libdemo.so"; regular = true }
      ∷ record { name = codes "x"; regular = true }
      ∷ []);
}

abbrev demo : Bytes × Service
demo = (
  codes "libdemo.so",
  fresh 0 (record new_service {
    do_create = b'c';
    do_init = b'i';
    do_request = b'd';
    do_release = b'r';
    do_destroy = b'd';
  }),
)
