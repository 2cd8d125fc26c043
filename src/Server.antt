-- ===== src/Server.antt =====
-- tg_server.c: the parameters of the server, and the lines of the configuration file.
-- A line is what fgets gives: its bytes, the line end among them. setenv is left out.
pub mod Lines
pub mod Plugins
pub mod Startup
mod Tests
use tgserver.Base.{
  ℕ, suc, zero, ◌+◌, ◌-◌, Bool, true, false, ◌||◌, ◌&&◌, List, [], ◌∷◌, ◌++◌, Option, none, some,
  ltb, ◌==◌, if◌then◌else◌, length, take, drop, ℤ, pos, negsuc, Run, ok, fault, ◌>>=◌, Bytes,
  strncmp_eq, string_at, with_nul, atoi,
}
use tgserver.Context.{Server, Context, State, default_listen_port, default_max_clients}
use tgserver.Service.{Services, set_service_create_parameters_by_n}
use tgserver.Response.{codes}
use tgserver.Util.{find_separator}

-- x == 0 ? y : x.
abbrev pub or_default : ℤ → ℕ → ℤ
or_default (pos zero) y = pos y
or_default x y = x

-- g_context->pServer = f(*g_context->pServer).
abbrev pub with_server : (Server → Server) → State → Run State
with_server f s = elim s.context [
  | none ↦ fault
  | some g ↦ elim g.server [
    | none ↦ fault
    | some v ↦ ok (record s { context = some (record g { server = some (f v) }) })
  ]
]

abbrev pub with_log_level : ℕ → State → Run State
with_log_level level s = elim s.context [
  | none ↦ fault
  | some g ↦ ok (record s { context = some (record g { log_level = level }) })
]

-- The level by the first byte of its value.
abbrev pub log_level_of : Bytes → Run ℕ
log_level_of [] = fault
log_level_of (c ∷ rest) =
    ok (if c == b'1' then 1 else if c == b'2' then 2 else if c == b'3' then 3 else 0)

-- The switch of __parse_parameter on its first byte.
parse_key : ℕ → Bytes → State → Run State
parse_key k value s =
    let sets_port = do
      port ← atoi value
      with_server (λ v. record v { port = or_default port default_listen_port }) s
    in let sets_address = do
      ip ← string_at value
      with_server (λ v. record v { listen_ip = some ip }) s
      in let sets_limit = do
        max ← atoi value
        with_server (λ v. record v { max_clients = or_default max default_max_clients }) s
        in let sets_level = log_level_of value >>= λ level. with_log_level level s in
          if k == b'p'
          then sets_port
          else if k == b'l'
          then sets_address
          else if k == b'm'
          then sets_limit
          else if k == b'o'
          then sets_level
          else ok s

-- __parse_parameter: the memory of the key, `none` where it is NULL, and the memory of the value.
unfoldable pub parse_parameter : Option Bytes → Bytes → State → Run State
unfolding parse_key
parse_parameter none value s = fault
parse_parameter (some []) value s = fault
parse_parameter (some (k ∷ rest)) value s = parse_key k value s

-- The one letter for a key of the file, `none` (NULL) for any other.
unfoldable pub key_letter : Bytes → Run (Option Bytes)
key_letter par = do
  port ← strncmp_eq 4 par (with_nul (codes "port"))
  listen ← strncmp_eq 6 par (with_nul (codes "listen"))
  limit ← strncmp_eq 11 par (with_nul (codes "max-clients"))
  level ← strncmp_eq 9 par (with_nul (codes "log-level"))
  ok (
      if port
      then some (with_nul (codes "p"))
      else if listen
      then some (with_nul (codes "l"))
      else if limit
      then some (with_nul (codes "m"))
      else if level
      then some (with_nul (codes "o"))
      else none)

-- A line "[D]name=parameters".
unfoldable pub service_line : Bytes → Bytes → Services → Run Services
service_line par value services = do
  same ← strncmp_eq 3 par (with_nul (codes "[D]"))
  let sets = set_service_create_parameters_by_n (drop 3 par) value services
  if same && ltb 4 (length par) then sets else ok services

-- The body of the loop of __read_conf_file for a line; `stack` is what findSeparator may look at.
unfoldable pub read_conf_line : Bytes → Bytes → State × Services → Run (State × Services)
read_conf_line stack [] (s, services) = ok (s, services)
read_conf_line stack (c ∷ line) (s, services) =
    let parses : Run (State × Services) = do
      separ ← find_separator stack (some (c ∷ line)) (some (b'=' ∷ []))
      elim separ [
        | negsuc n ↦ ok (s, services)
        | pos p ↦
            let par = with_nul (take p (c ∷ line)) in
            let value = drop (p + 1) (c ∷ line) in
            if c == b'[' && ltb 0 p
            then (service_line par value services >>= λ q. ok (s, q))
            else (do
              letter ← key_letter par
              t ← parse_parameter letter (with_nul value) s
              ok (t, services))
      ]
    in if c == 10 then ok (s, services) else parses

-- The loop over the lines.
unfoldable pub read_conf_lines : Bytes → List Bytes → State × Services → Run (State × Services)
read_conf_lines stack [] s = ok s
read_conf_lines stack (line ∷ lines) s = do
  t ← read_conf_line stack line s
  read_conf_lines stack lines t
