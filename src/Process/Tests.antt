-- ===== src/Process/Tests.antt =====
-- tg_process.c: the theorems on a table with one client.
use tgserver.Base.{
  List, if◌then◌else◌, Bytes, Option, ℕ, ◌≡◌, refl, [], ◌∷◌, none, some, replicate, pos, ℤ, ok, Run,
}
use tgserver.Context.{
  Action, write_fd, Client, Slots, State, init_client, initial_context, find_client,
}
use tgserver.Context.Loops.{registered, Distinct, lookup}
use tgserver.Context.Table.{with_table, IsValid}
use tgserver.Service.{new_service, Service}
use tgserver.Response.{act, codes, Handled, returns}
use tgserver.Process.{Arrival, entered, handle_child_quit_signal}
use tgserver.Process.Clients.{quit, handle_child_quit_signal-IsValid}

abbrev visit : Arrival
visit = record {
  sockfd = pos 4;
  host = codes "10.0.0.1";
  port = 52000;
  to_child = (pos 5, pos 6);
  to_main = (pos 7, pos 8);
}

abbrev no_clients : Slots
no_clients = replicate 20 none

abbrev started : State
started = with_table no_clients initial_context

started-IsValid : IsValid started
unfolding registered Distinct
started-IsValid = record {
  table = no_clients;
  globals = initial_context;
  shape = refl;
  counted = refl;
  distinct = tt;
}

abbrev one_client : State
one_client =
    with_table (some (entered visit 4711) ∷ replicate 19 none)
      (record initial_context { cur_client_counts = pos 1 })

one_client-IsValid : IsValid one_client
unfolding registered Distinct lookup
one_client-IsValid = record {
  table = some (entered visit 4711) ∷ replicate 19 none;
  globals = record initial_context { cur_client_counts = pos 1 };
  shape = refl;
  counted = refl;
  distinct = (refl, tt);
}

handle_child_quit_signal-IsValid_example :
    (acts : List Action) × (t : State) × (handle_child_quit_signal (4711 ∷ []) one_client
      ≡ ok (acts, t))
    × IsValid t
    × ((p : ℕ)
        → find_client p t ≡ (if quit p (4711 ∷ []) then ok none else find_client p one_client))
handle_child_quit_signal-IsValid_example =
    handle_child_quit_signal-IsValid (4711 ∷ []) one_client one_client-IsValid

abbrev demo : Service
demo = record new_service { do_destroy = 1 }

abbrev near : Client
near = record init_client { pid = 17; write_pipe = pos 9 }

abbrev all_written : ℤ → ℤ
all_written fd = pos 10

abbrev no_plugin : ℕ → Bytes → Run (Option Bytes)
no_plugin p memory = ok none

-- What the handler of a wrong length does.
abbrev length_told : Handled
length_told = record {
  effects = act (write_fd (pos 9) (codes "tg://2001/")) ∷ [];
  after = returns (pos 0);
}
