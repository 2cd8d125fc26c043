-- ===== src/Server/Startup/Boots/Tests.antt =====
-- main.c and tg_process.c: a server with one plugin, and a request for it.
use tgserver.Base.{
  ℕ, List, [], ◌∷◌, ◌++◌, Option, none, some, true, false, pos, Run, ok, fault, Bytes, codes,
  replicate,
}
use tgserver.Context.{Client, State, init_client, initial_context}
use tgserver.Context.Table.{with_table}
use tgserver.Event.{no_events}
use tgserver.Event.Cells.{Event}
use tgserver.Service.{Service, Services, new_service, Call}
use tgserver.Service.Loading.Loads.{fresh}
use tgserver.Reader.Inputs.{chunks}
use tgserver.Response.{zeroed, aligned}
use tgserver.Process.Interleaving.{System, gone, do_request, take_event, answer_event}
use tgserver.Server.Startup.{Host, Entry}
use tgserver.Server.Startup
use tgserver.Server.Startup.Boots.{Created, serving}

abbrev files : List Entry
files =
    record { name = codes "."; regular = false }
    ∷ record { name = codes "libdemo.so"; regular = true }
    ∷ []

-- A machine whose one library has each function at the first letter of its name.
abbrev equipped : Host
equipped = record {
  linker = record {
    dlopen = λ path. some 3;
    dlsym = λ h name. elim name [ [] ↦ none | c ∷ rest ↦ some c ];
  };
  home = none;
  directory = λ path. some files;
  file = λ path. none;
}

abbrev demo : Bytes × Service
demo = (
  codes "libdemo.so",
  fresh 0 (record new_service {
    do_create = b'c';
    do_init = b'i';
    do_request = b'd';
    do_release = b'r';
    do_destroy = b'd';
  }),
)

abbrev returns_nothing : Created
returns_nothing f parameters = none

-- Two bytes for every request.
abbrev two_bytes : ℕ → Bytes → Run (Option Bytes)
two_bytes f memory = ok (some (2 ∷ 0 ∷ 0 ∷ 0 ∷ 21 ∷ 22 ∷ []))

abbrev peer : Client
peer = record init_client { sockfd = pos 4; read_pipe = pos 8; write_pipe = pos 9 }

abbrev no_state : State
no_state = with_table (replicate 20 none) initial_context

abbrev services : Services
services = serving equipped [] 0 returns_nothing (demo ∷ []) 8

abbrev first_piece : Bytes
first_piece = 20 ∷ 0 ∷ 0 ∷ 0 ∷ b't' ∷ []

abbrev pieces : List Bytes
pieces = (codes "g://libdemo.so/all" ++ 0 ∷ []) ∷ []

abbrev nothing : System
nothing = record { queue = no_events; phase = gone; socket = []; pipe = []; pushed = []; log = [] }

abbrev end_of : Run System → System
end_of (ok t) = t
end_of fault = nothing

abbrev began : Run (List Call × System) → System
began (ok r) = r.1
began fault = nothing

abbrev ready : System
ready = end_of (
    answer_event two_bytes [] (zeroed aligned) services no_state peer
      (end_of (take_event (began (do_request 1 services (chunks (first_piece ∷ pieces)) [])))))
