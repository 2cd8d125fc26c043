-- ===== src/Server/Lines.antt =====
-- tg_server.c: what a line of the configuration file sets.
use tgserver.Base.{◌≡◌, refl, ◌++◌, some, ok, Bytes, strncmp_eq, with_nul, atoi, ℤ, arith}
use tgserver.Context.{Server, Context, Slots, State, default_listen_port, default_max_clients}
use tgserver.Context.Table.{with_table}
use tgserver.Service.{Services}
use tgserver.Service.Table.{NoNul, string_at-with_nul}
use tgserver.Response.{codes}
use tgserver.Util.Fronts.{found_at}
use tgserver.Util.{find_separator}
use tgserver.Util.Search.{Lacks, find_separator-FindsFirst}
use tgserver.Server.{or_default, parse_parameter, key_letter, read_conf_line}

-- The context with another server structure.
abbrev pub serving : Slots → Context → Server → State
serving xs g v = with_table xs (record g { server = some v })

-- A line "port=...", "listen=..." or "max-clients=..." sets that one value: a number as atoi reads
-- it (one that an int holds), with 6666 and 20 in place of 0, and for the address all that stands
-- behind "=", the end of the line included.
pub read_conf_line-sets :
    (stack value : Bytes) (n : ℤ) (xs : Slots) (g : Context) (v : Server) (services : Services)
    → NoNul value
    → atoi (with_nul value) ≡ ok n
    → (read_conf_line stack (codes "port=" ++ value) (serving xs g v, services)
        ≡ ok (serving xs g (record v { port = or_default n default_listen_port }), services))
      × (read_conf_line stack (codes "listen=" ++ value) (serving xs g v, services)
          ≡ ok (serving xs g (record v { listen_ip = some value }), services))
      × (read_conf_line stack (codes "max-clients=" ++ value) (serving xs g v, services)
          ≡ ok (
            serving xs g (record v { max_clients = or_default n default_max_clients }),
            services,
          ))
unfolding read_conf_line key_letter parse_parameter strncmp_eq find_separator
read_conf_line-sets stack value n xs g v services h e = (
  rw
      (found_at b'=' (codes "port") value _
        (find_separator-FindsFirst stack (codes "port=" ++ value) b'=') lacks_port)
      (rw e refl),
  rw
      (found_at b'=' (codes "listen") value _
        (find_separator-FindsFirst stack (codes "listen=" ++ value) b'=') lacks_listen)
      (rw (string_at-with_nul value h) refl),
  rw
      (found_at b'=' (codes "max-clients") value _
        (find_separator-FindsFirst stack (codes "max-clients=" ++ value) b'=') lacks_limit)
      (rw e refl),
)
  where
    lacks_port : Lacks b'=' (codes "port")
    lacks_port =
        ((λ q. omega arith), ((λ q. omega arith), ((λ q. omega arith), ((λ q. omega arith), tt))))

    lacks_listen : Lacks b'=' (codes "listen")
    lacks_listen = (
      (λ q. omega arith),
      (
        (λ q. omega arith),
        ((λ q. omega arith), ((λ q. omega arith), ((λ q. omega arith), ((λ q. omega arith), tt)))),
      ),
    )

    lacks_limit : Lacks b'=' (codes "max-clients")
    lacks_limit = (
      (λ q. omega arith),
      (
        (λ q. omega arith),
        (
          (λ q. omega arith),
          (
            (λ q. omega arith),
            (
              (λ q. omega arith),
              (
                (λ q. omega arith),
                (
                  (λ q. omega arith),
                  (
                    (λ q. omega arith),
                    ((λ q. omega arith), ((λ q. omega arith), ((λ q. omega arith), tt))),
                  ),
                ),
              ),
            ),
          ),
        ),
      ),
    )
