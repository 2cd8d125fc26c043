-- ===== src/Server/Startup/Arguments.antt =====
-- tg_server.c and main.c: wrong arguments, and the two ways to give a plugin its parameters.
use tgserver.Base.{
  sizes, codes, ℕ, suc, ◌+◌, ◌≡◌, refl, sym, false, List, [], ◌∷◌, ◌++◌, Option, none, some, ◌==◌,
  length, take-append, drop-suc-append, pos, Run, ok, fault, ◌>>=◌, Bytes, strncmp_eq, with_nul,
  lt→ltb, arith,
}
use tgserver.Context.{release_client, shutdown_fd, close_fd, init, State, release}
use tgserver.Service.{Slot, Services, set_service_create_parameters_by_n}
use tgserver.Service.Loading.{Loader}
use tgserver.Server.{read_conf_line, service_line}
use tgserver.Server.Plugins.{init_plugin}
use tgserver.Server.Startup.{
  Host, Setup, exits, init_arguments, reject, init_context, main, asks_help,
}
use tgserver.Util.Fronts.{found_at}
use tgserver.Util.Search.{Lacks, find_separator-FindsFirst}

bind_ok : {A : Type 0} (r : Run A) → (r >>= λ a. ok a) ≡ r
bind_ok (ok a) = refl
bind_ok fault = refl

add_one : (n : ℕ) → n + 1 ≡ suc n
add_one n = omega arith

-- The parameters of a plugin, set by its name.
abbrev sets : Bytes → Bytes → Services → Run Services
sets name value services = set_service_create_parameters_by_n (with_nul name) value services

sets-nil :
    (value : Bytes) (t : Option (List Slot)) (n : ℕ)
    → sets [] value (record { table = t; counts = n }) ≡ ok (record { table = t; counts = n })
unfolding set_service_create_parameters_by_n
sets-nil value none n = refl
sets-nil value (some xs) n = refl

init_plugin-sets :
    (stack name value : Bytes) (services : Services)
    → Lacks b'=' name
    → init_plugin stack (codes "-D" ∷ (name ++ b'=' ∷ value) ∷ []) services
      ≡ sets name value services
unfolding init_plugin
init_plugin-sets stack name value services lacks =
    rw
      (found_at b'=' name value _ (find_separator-FindsFirst stack (name ++ b'=' ∷ value) b'=')
        lacks)
      (rw (take-append name (b'=' ∷ value), add_one, drop-suc-append name value b'=')
        (bind_ok (sets name value services)))

service_line-sets :
    (name value : Bytes) (services : Services)
    → service_line (codes "[D]" ++ with_nul name) value services ≡ sets name value services
unfolding service_line strncmp_eq
service_line-sets [] value services = sym (sets-nil value services.table services.counts)
service_line-sets (x ∷ name) value services =
    rw (lt→ltb 4 (suc (suc (suc (suc (length (with_nul name)))))) (omega sizes)) refl

read_conf_line-sets_parameter :
    (stack name value : Bytes) (s : State) (services : Services)
    → Lacks b'=' name
    → read_conf_line stack (codes "[D]" ++ (name ++ b'=' ∷ value)) (s, services)
      ≡ (sets name value services >>= λ q. ok (s, q))
unfolding read_conf_line
read_conf_line-sets_parameter stack name value s services lacks =
    rw
      (found_at b'=' (codes "[D]" ++ name) value _
        (find_separator-FindsFirst stack (codes "[D]" ++ (name ++ b'=' ∷ value)) b'=')
        ((λ q. omega arith), ((λ q. omega arith), ((λ q. omega arith), lacks))))
      (rw
        (
          lt→ltb 0 (suc (suc (suc (length name)))) (omega arith),
          take-append name (b'=' ∷ value),
          add_one,
        )
        (rw (drop-suc-append name value b'=', service_line-sets name value services) refl))

-- A line "[D]name=value" of the configuration file, with its line end as fgets gives it, and the
-- arguments -D name=value both call setServiceCreateParametersByN for the name, and change nothing
-- else; but the parameter of the line has its line end behind the value, and that of the arguments
-- is the value.
pub read_conf_line-init_plugin :
    (stack name value : Bytes) (s : State) (services : Services)
    → Lacks b'=' name
    → (read_conf_line stack (codes "[D]" ++ (name ++ b'=' ∷ (value ++ 10 ∷ []))) (s, services) ≡ (
        set_service_create_parameters_by_n (with_nul name) (value ++ 10 ∷ []) services >>= λ q.
        ok (s, q)))
      × (init_plugin stack (codes "-D" ∷ (name ++ b'=' ∷ value) ∷ []) services
          ≡ set_service_create_parameters_by_n (with_nul name) value services)
read_conf_line-init_plugin stack name value s services lacks = (
  read_conf_line-sets_parameter stack name (value ++ 10 ∷ []) s services lacks,
  init_plugin-sets stack name value services lacks,
)

-- The first argument, or its value, is wrong: the value is missing or empty, or the argument is no
-- "-" with something behind it.
pub data IsWrong : List Bytes → Type 0 where
  no_value : (x : ℕ) (par : Bytes) → IsWrong ((x ∷ par) ∷ [])
  empty_value : (x : ℕ) (par : Bytes) (args : List Bytes) → IsWrong ((x ∷ par) ∷ [] ∷ args)
  no_letter : (x : ℕ) (value : Bytes) (args : List Bytes) → IsWrong ((x ∷ []) ∷ value ∷ args)
  no_dash :
      (x y : ℕ) (par value : Bytes) (args : List Bytes)
      → (x == b'-') ≡ false
      → IsWrong ((x ∷ y ∷ par) ∷ value ∷ args)

abbrev pub nothing_set : State
nothing_set = record { clients = none; clients_ar_size = 0; context = none }

module _ (host : Host) (room : Option (List Slot)) (stack : Bytes) (before : ℕ) where
  init_arguments-reject :
      (args : List Bytes) (s : Setup)
      → IsWrong args
      → init_arguments host room stack before args s ≡ reject host room stack before s
  unfolding init_arguments
  init_arguments-reject _ s (no_value x []) = refl
  init_arguments-reject _ s (no_value x (y ∷ par)) = refl
  init_arguments-reject _ s (empty_value x [] args) = refl
  init_arguments-reject _ s (empty_value x (y ∷ par) args) = refl
  init_arguments-reject _ s (no_letter x value args) = refl
  init_arguments-reject _ s (no_dash x y par [] args e) = refl
  init_arguments-reject _ s (no_dash x y par (v ∷ value) args e) = rw e refl

  -- Where TGSERVER_HOME is not set and there is no directory of plugins, a first argument that is
  -- wrong and does not ask for help ends the program with status 1; but as the descriptors of the
  -- context are still 0, it shuts down and closes the descriptor 0 first, and closes it once more.
  pub main-exits :
      (created : ℕ → Option (List (Option Bytes)) → Option ℕ) (args : List Bytes) (l : Loader)
      → IsWrong args
      → asks_help args ≡ false
      → host.home ≡ none
      → host.directory (codes "../plugins/") ≡ none
      → main host room stack before created args (nothing_set, l)
        ≡ ok (exits 1 (shutdown_fd (pos 0) ∷ close_fd (pos 0) ∷ close_fd (pos 0) ∷ []))
  unfolding main init_context reject init release release_client init_arguments
  main-exits created [] l w help home directory = elim w [ ]
  main-exits created (a ∷ more) l w help home directory =
      rw (help, home) (rw directory (rw (init_arguments-reject (a ∷ more) _ w) refl))
