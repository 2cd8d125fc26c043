-- ===== src/Process/Listening/Tests.antt =====
-- tg_process.c: a start of the main loop, and a round with a connection.
use tgserver.Base.{
  ◌≡◌, refl, ◌⊎◌, true, false, List, [], ◌∷◌, map, none, some, pos, minus_one, replicate, ok,
}
use tgserver.Context.{Slots, State, initial_context, initial_server, find_client, add_client}
use tgserver.Context.Signals.{is_minus_one}
use tgserver.Context.Table.{with_table}
use tgserver.Service.{Services}
use tgserver.Response.{Effect, act, codes}
use tgserver.Process.{Arrival, parent, do_accept, entered}
use tgserver.Process.Clients.{parent_closes}
use tgserver.Process.Listening.{
  on, Sockets, Round, fails, listens, start_listen, open_admin_pipe, listen_round,
}
use tgserver.Process.Listening.Rounds.{before, address_of, start_listen-begins}

-- mkfifo fails, since the pipe is there.
abbrev sockets : Sockets
sockets = record {
  socket = pos 3;
  bound = pos 0;
  listened = pos 0;
  mkfifo = minus_one;
  exists = true;
  opened = pos 4;
}

abbrev empty_table : Slots
empty_table = replicate 20 none

begins_listening :
    (is_minus_one (pos 3) ≡ true
      → start_listen sockets (before empty_table initial_context initial_server)
        ≡ ok (fails (before empty_table initial_context initial_server)))
    × (is_minus_one (pos 3) ≡ false
        → (is_minus_one (pos 0) ≡ true) ⊎ (is_minus_one (pos 0) ≡ true)
        → start_listen sockets (before empty_table initial_context initial_server)
          ≡ ok (
              fails
                (before empty_table (record initial_context { listenfd = pos 3 }) initial_server)))
    × (is_minus_one (pos 3) ≡ false
        → is_minus_one (pos 0) ≡ false
        → is_minus_one (pos 0) ≡ false
        → (is_minus_one (open_admin_pipe sockets) ≡ true
            → start_listen sockets (before empty_table initial_context initial_server)
              ≡ ok (
                  listens (address_of initial_server) (
                    before empty_table
                      (record initial_context { listenfd = pos 3 })
                      initial_server)))
          × (is_minus_one (open_admin_pipe sockets) ≡ false
              → start_listen sockets (before empty_table initial_context initial_server)
                ≡ ok (
                    listens (address_of initial_server) (
                      with_table empty_table (record initial_context {
                        server = some initial_server;
                        listenfd = pos 3;
                        local_admin_fd = open_admin_pipe sockets;
                      })))))
begins_listening = start_listen-begins sockets empty_table initial_context initial_server

abbrev visit : Arrival
visit = record {
  sockfd = pos 4;
  host = codes "10.0.0.1";
  port = 52000;
  to_child = (pos 5, pos 6);
  to_main = (pos 7, pos 8);
}

abbrev connects : Round
connects = record {
  selected = pos 1;
  arrival = some (visit, parent 4711);
  commanded = false;
  answer_fd = minus_one;
}

abbrev started : State
started = with_table empty_table initial_context

abbrev one_client : State
one_client =
    with_table (some (entered visit 4711) ∷ replicate 19 none)
      (record initial_context { cur_client_counts = pos 1 })

abbrev closes : List Effect
closes = map act (parent_closes visit)

abbrev no_services : Services
no_services = record { table = none; counts = 0 }

-- A round with a connection, and one in which select fails.
rounds :
    (listen_round (λ fd. pos 10) no_services connects started [] ≡ ok (on closes one_client []))
    × (listen_round (λ fd. pos 10) no_services (record connects { selected = minus_one }) started []
        ≡ ok (on [] started []))
unfolding listen_round do_accept find_client add_client
rounds = (refl, refl)
