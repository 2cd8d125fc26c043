-- ===== src/Server/Tests.antt =====
-- tg_server.c: the theorem on a value, and runs on lines of a file.
use tgserver.Base.{
  ◌≡◌, refl, [], ◌∷◌, ◌++◌, none, some, replicate, pos, ok, fault, atoi, digits_value, strncmp_eq,
  arith,
}
use tgserver.Context.{
  Slots, initial_context, initial_server, default_listen_port, default_max_clients,
}
use tgserver.Service.{Services}
use tgserver.Response.{codes}
use tgserver.Util.{find_separator}
use tgserver.Server.{or_default, read_conf_line, read_conf_lines, key_letter, parse_parameter}
use tgserver.Server.Lines.{serving, read_conf_line-sets}

abbrev no_clients : Slots
no_clients = replicate 20 none

abbrev no_services : Services
no_services = record { table = none; counts = 0 }

-- A comment, an empty line and two settings.
read_conf_lines_runs :
    read_conf_lines []
      ((b'#' ∷ []) ∷ (10 ∷ []) ∷ codes "log-level=2" ∷ codes "port=80" ∷ [])
      (serving no_clients initial_context initial_server, no_services)
    ≡ ok (
      serving no_clients
          (record initial_context { log_level = 2 })
          (record initial_server { port = pos 80 }),
      no_services,
    )
unfolding read_conf_lines read_conf_line key_letter parse_parameter find_separator strncmp_eq atoi
    digits_value
read_conf_lines_runs = refl

-- An unknown key leads to a read through NULL.
unknown_key :
    read_conf_line []
      (codes "name=x")
      (serving no_clients initial_context initial_server, no_services)
    ≡ fault
unfolding read_conf_line key_letter parse_parameter find_separator strncmp_eq
unknown_key = refl

read_conf_line-sets_example :
    (read_conf_line []
        (codes "port=" ++ (b'8' ∷ 10 ∷ []))
        (serving no_clients initial_context initial_server, no_services)
      ≡ ok (
        serving no_clients initial_context
            (record initial_server { port = or_default (pos 8) default_listen_port }),
        no_services,
      ))
    × (read_conf_line []
          (codes "listen=" ++ (b'8' ∷ 10 ∷ []))
          (serving no_clients initial_context initial_server, no_services)
        ≡ ok (
          serving no_clients initial_context
              (record initial_server { listen_ip = some (b'8' ∷ 10 ∷ []) }),
          no_services,
        ))
    × (read_conf_line []
          (codes "max-clients=" ++ (b'8' ∷ 10 ∷ []))
          (serving no_clients initial_context initial_server, no_services)
        ≡ ok (
          serving no_clients initial_context
              (record initial_server { max_clients = or_default (pos 8) default_max_clients }),
          no_services,
        ))
unfolding atoi digits_value
read_conf_line-sets_example =
    read_conf_line-sets [] (b'8' ∷ 10 ∷ []) (pos 8) no_clients initial_context initial_server
      no_services ((λ e. omega arith), ((λ e. omega arith), tt)) refl
