-- ===== src/Process/Interleaving/Schedules/Tests.antt =====
-- tg_process.c: a run in which the reading thread reads while the first event is at hand.
use tgserver.Base.{
  ◌≡◌, length, codes, atoi, strncpy, digits_value, arith, ℕ, refl, true, false, List, [], ◌∷◌,
  Option, none, some, pos, Run, ok, fault, Bytes,
}
use tgserver.Context.{Client, State, init_client}
use tgserver.Event.Refine.{Represents, no_events-Represents}
use tgserver.Event.{no_events, push_event_to_queue, head, free_tg_event}
use tgserver.Service.{Services, service, null, new_service, init_all_services}
use tgserver.Reader.{Stream, Outcome, chunk, read_data_from_cli, read_data_from_main_process}
use tgserver.Response.{
  zeroed, aligned, handle_response, handle_response_client_init, handle_response_data_length_error,
}
use tgserver.Process.Interleaving.{
  System, waits, gone, do_request, read_client, take_event, answer_event, signal,
}
use tgserver.Process.Interleaving.Schedules.{
  ready, interrupted, failed, deamon_read, Turn, reader, taker, answerer, waker, Running, run,
}
use tgserver.Process.Interleaving.Schedules.Rounds.{deamon_read-pushes}

abbrev one_service : Services
one_service = record {
  table = some (service (record new_service { do_init = 7 }) ∷ null ∷ []);
  counts = 2;
}

abbrev no_state : State
no_state = record { clients = none; clients_ar_size = 0; context = none }

abbrev near : Client
near = record init_client { sockfd = pos 4 }

abbrev silent : ℕ → Bytes → Run (Option Bytes)
silent f memory = ok none

abbrev wrong_length : Stream
wrong_length = chunk (0 ∷ 0 ∷ 0 ∷ 0 ∷ []) ∷ []

abbrev nothing : System
nothing = record { queue = no_events; phase = gone; socket = []; pipe = []; pushed = []; log = [] }

abbrev begun : System
begun = elim (do_request 1 one_service wrong_length []) [ ok r ↦ r.1 | fault ↦ nothing ]

abbrev schedule : List Turn
schedule =
    taker
    ∷ reader 3 0 2 3 (ready true false)
    ∷ answerer
    ∷ taker
    ∷ answerer
    ∷ taker
    ∷ waker
    ∷ reader 3 0 4 5 interrupted
    ∷ []

abbrev last : Running
last =
    elim (run silent [] (zeroed aligned) one_service no_state near schedule
      (record { system = begun; reading = true })) [
        | ok r ↦ r
        | fault ↦ record { system = nothing; reading = false }
      ]

-- Both events have been handled, and the interruption has ended the reading thread.
runs : (last.reading ≡ false) × (length last.system.log ≡ 2)
unfolding do_request init_all_services push_event_to_queue read_client read_data_from_cli signal
    take_event head answer_event handle_response handle_response_client_init
    handle_response_data_length_error free_tg_event run
runs = (refl, refl)

abbrev piped : Client
piped = record near { read_pipe = pos 8 }

-- The socket and the pipe are ready at once.
abbrev quiet : System
quiet = record {
  queue = no_events;
  phase = waits;
  socket = wrong_length;
  pipe = chunk (codes "tg://1003/") ∷ [];
  pushed = [];
  log = [];
}

abbrev bad_length : Outcome
bad_length = record { code = pos 1; type_id = some (pos 1002); payload = none; rest = [] }

abbrev shutdown : Outcome
shutdown = record { code = pos 0; type_id = some (pos 1003); payload = none; rest = [] }

deamon_read-pushes_example :
    ((u : System) × (deamon_read silent
          (0 ∷ [])
          (zeroed aligned)
          one_service
          no_state
          piped
          3
          0
          2
          3
          (ready true true)
          quiet
        ≡ ok (u, true))
      × (u.pushed ≡ (pos 1002, none) ∷ (pos 1003, none) ∷ [])
      × Represents u.queue ((pos 1002, none) ∷ (pos 1003, none) ∷ [])
      × (u.socket ≡ [])
      × (u.pipe ≡ []))
    × (deamon_read silent
          (0 ∷ [])
          (zeroed aligned)
          one_service
          no_state
          piped
          3
          0
          2
          3
          interrupted
          quiet
        ≡ ok (quiet, false))
    × (deamon_read silent (0 ∷ []) (zeroed aligned) one_service no_state piped 3 0 2 3 failed quiet
        ≡ ok (quiet, true))
unfolding read_data_from_cli read_data_from_main_process atoi strncpy digits_value
deamon_read-pushes_example =
    deamon_read-pushes silent (0 ∷ []) (zeroed aligned) one_service no_state piped 3 0 2 3 true true
      quiet [] bad_length shutdown no_events-Represents refl refl (λ e. omega arith) refl refl
