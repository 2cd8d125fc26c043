-- ===== src/Server/Plugins.antt =====
-- tg_server.c: the arguments of the command line that init_plugin reads. An argument is a string;
-- the loop takes two at a time, and walks behind the NULL at the end of argv where the last has no
-- second.
use tgserver.Base.{
  ◌+◌, List, [], ◌∷◌, some, ◌==◌, if◌then◌else◌, take, drop, pos, negsuc, Run, ok, fault, ◌>>=◌,
  Bytes, with_nul,
}
use tgserver.Service.{Services, set_service_create_parameters_by_n}
use tgserver.Util.{find_separator}

-- One parameter with its value: "-D" and "name=parameters", or any other.
plugin_parameter : Bytes → Bytes → Bytes → Services → Run Services
plugin_parameter stack (dash ∷ letter ∷ rest) value services = do
  separ ← find_separator stack (some value) (some (b'=' ∷ []))
  elim separ [
    | negsuc n ↦ ok services
    | pos p ↦
        let sets =
          set_service_create_parameters_by_n (with_nul (take p value)) (drop (p + 1) value)
            services in
        if dash == b'-' then if letter == b'D' then sets else ok services else ok services
  ]
plugin_parameter stack _ value services = ok services

-- The loop over the arguments behind the name of the program.
unfoldable pub init_plugin : Bytes → List Bytes → Services → Run Services
unfolding plugin_parameter
init_plugin stack [] services = ok services
init_plugin stack (par ∷ []) services = fault
init_plugin stack (par ∷ value ∷ rest) services = do
  t ← plugin_parameter stack par value services
  init_plugin stack rest t
