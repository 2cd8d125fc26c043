-- ===== src/Server/Startup/Boots.antt =====
-- main.c, tg_server.c, tg_service.c and tg_process.c: from the files in the directory of the plugins
-- to the answer that a client of the server gets.
mod Tests
use tgserver.Base.{
  ℕ, zero, suc, ◌+◌, sym, Bool, true, false, List, [], ◌∷◌, map, Option, length, replicate,
  if◌then◌else◌, Bytes, le_bytes, with_nul,
}
use tgserver.Service.{Service, Services, null}
use tgserver.Service.Table.{named, behind_slots, holding, free_behind}
use tgserver.Service.Loading.{Linker}
use tgserver.Server.Startup.{Host, Setup, load_services}
use tgserver.Event.Cells.{Event}
use tgserver.Process.Interleaving.Serves.{services_in}

-- What create returns, by the address of the function and its parameters.
abbrev pub Created : Type 0
Created = ℕ → Option (List (Option Bytes)) → Option ℕ

-- The services once their create functions have been called.
abbrev pub created_all : Created → List (Bytes × Service) → List (Bytes × Service)
created_all created [] = []
created_all created ((n, p) ∷ ps) =
    (n, record p { global_data = created p.do_create p.parameters }) ∷ created_all created ps

module _ (host : Host) (stack : Bytes) (before : ℕ) (created : Created) where
  -- The services of the server, once their create functions have been called.
  abbrev pub serving : List (Bytes × Service) → ℕ → Services
  serving ps free =
      services_in (created_all created ps) (replicate free null) (length (map named ps) + suc free)
