-- ===== src/Process/Interleaving/Tests.antt =====
-- tg_process.c: a client process with one service, to which the client sends a wrong length while
-- the event of the initialization waits.
use tgserver.Base.{
  lacks-All, inl, ◌++◌, All, ℕ, ◌≡◌, refl, List, [], ◌∷◌, Option, none, some, pos, Run, ok, fault,
  Bytes, arith,
}
use tgserver.Context.{Client, State, init_client, write_fd}
use tgserver.Event.{no_events, push_event_to_queue, head, free_tg_event}
use tgserver.Event.Cells.{Event}
use tgserver.Event.Refine.{Represents}
use tgserver.Service.{Service, Services, Call, inits, service, null, new_service, init_all_services}
use tgserver.Reader.{Stream, chunk, read_data_from_cli}
use tgserver.Response.{
  zeroed, aligned, Handled, call, act, codes, returns, handle_response, handle_response_client_init,
  handle_response_data_length_error,
}
use tgserver.Process.Interleaving.{
  answer, gone, System, do_request, client_init, read_client, take_event, answer_event, respond,
  signal, Reached, starts, follows, reads_client, takes, answers,
}
use tgserver.Response.Contracts.{KeepsContract}
use tgserver.Process.Interleaving.Sound.{IsSound, handled_events}
use tgserver.Process.Interleaving.Orders.{Reached-IsSound, Reached-inits_twice, Reached-waits}
use tgserver.Process.Interleaving.Serves.{services_in, AnswersWith, respond-AnswersWith}
use tgserver.Reader.Inputs.{chunks}
use tgserver.Process.Interleaving.Progress.{respond-handles}

abbrev one_service : Services
one_service = record {
  table = some (service (record new_service { do_init = 7 }) ∷ null ∷ []);
  counts = 2;
}

abbrev no_state : State
no_state = record { clients = none; clients_ar_size = 0; context = none }

abbrev near : Client
near = record init_client { sockfd = pos 4 }

abbrev no_answer : ℕ → Bytes → Run (Option Bytes)
no_answer f memory = ok none

abbrev wrong_length : Stream
wrong_length = chunk (0 ∷ 0 ∷ 0 ∷ 0 ∷ []) ∷ []

abbrev nothing : System
nothing = record { queue = no_events; phase = gone; socket = []; pipe = []; pushed = []; log = [] }

abbrev end_of : Run System → System
end_of (ok t) = t
end_of fault = nothing

abbrev began : Run (List Call × System) → System
began (ok r) = r.1
began fault = nothing

abbrev begun : System
begun = began (do_request 1 one_service wrong_length [])

abbrev told : System
told = end_of (read_client [] near 3 0 2 begun)

abbrev taken : System
taken = end_of (take_event told)

abbrev answered : System
answered = end_of (answer_event no_answer [] (zeroed aligned) one_service no_state near taken)

abbrev Comes : System → Type 0
Comes = Reached no_answer [] (zeroed aligned) one_service no_state near (inits 7 none ∷ [])

Comes-begun : Comes begun
unfolding do_request init_all_services push_event_to_queue
Comes-begun = starts 1 wrong_length [] refl

Comes-told : Comes told
unfolding do_request init_all_services push_event_to_queue read_client read_data_from_cli signal
Comes-told = follows Comes-begun (reads_client 3 0 2 (λ e. cc) refl refl)

Comes-taken : Comes taken
unfolding do_request init_all_services push_event_to_queue read_client read_data_from_cli signal
    take_event head
Comes-taken = follows Comes-told (takes refl)

Comes-answered : Comes answered
unfolding do_request init_all_services push_event_to_queue read_client read_data_from_cli signal
    take_event head answer_event handle_response handle_response_client_init free_tg_event
Comes-answered = follows Comes-taken (answers refl)

Reached-IsSound_example : IsSound no_answer [] (zeroed aligned) one_service no_state near taken
Reached-IsSound_example =
    Reached-IsSound no_answer [] (zeroed aligned) one_service no_state near (inits 7 none ∷ [])
      taken Comes-taken

abbrev init_done : Event × Handled
init_done = (client_init, record { effects = call (inits 7 none) ∷ []; after = returns (pos 0) })

Reached-inits_twice_example :
    (init_all_services one_service ≡ ok (inits 7 none ∷ [])) × (init_done ≡ init_done)
unfolding do_request init_all_services push_event_to_queue read_client read_data_from_cli signal
    take_event head answer_event handle_response handle_response_client_init free_tg_event
Reached-inits_twice_example =
    Reached-inits_twice no_answer [] (zeroed aligned) one_service no_state near (inits 7 none ∷ [])
      answered init_done [] Comes-answered refl

respond-handles_example :
    (u : System) × (respond no_answer [] (zeroed aligned) one_service no_state near 2 told ≡ ok u)
    × (u.pushed ≡ told.pushed)
    × (handled_events u.log ≡ u.pushed)
    × Represents u.queue []
    × All (λ r. answer no_answer [] (zeroed aligned) one_service no_state near r.0 ≡ ok r.1) u.log
unfolding do_request init_all_services push_event_to_queue read_client read_data_from_cli signal
    take_event head answer_event handle_response handle_response_client_init free_tg_event
    handle_response_data_length_error
respond-handles_example =
    respond-handles no_answer [] (zeroed aligned) one_service no_state near (inits 7 none ∷ []) told
      (client_init ∷ (pos 1002, none) ∷ []) 2 Comes-told (λ e. cc) refl
      (
        (call (inits 7 none) ∷ [], pos 0, refl),
        ((act (write_fd (pos 4) (codes "tg://2001/")) ∷ [], pos 0, refl), tt),
      )
      (omega arith)

abbrev demos : List (Bytes × Service)
demos = (codes "demo.so", record new_service { do_init = 7 }) ∷ []

-- Two bytes for every request.
abbrev two_bytes : ℕ → Bytes → Run (Option Bytes)
two_bytes f memory = ok (some (2 ∷ 0 ∷ 0 ∷ 0 ∷ 21 ∷ 22 ∷ []))

abbrev first_piece : Bytes
first_piece = 15 ∷ 0 ∷ 0 ∷ 0 ∷ b't' ∷ []

abbrev pieces : List Bytes
pieces = (codes "g://demo" ∷ (codes ".so/x" ++ 0 ∷ []) ∷ [])

abbrev demo_services : Services
demo_services = services_in demos [] 2

abbrev ready : System
ready = end_of (
    answer_event two_bytes [] (zeroed aligned) demo_services no_state near
      (end_of (take_event (began (do_request 1 demo_services (chunks (first_piece ∷ pieces)) [])))))

ready-Reached :
    Reached two_bytes [] (zeroed aligned) demo_services no_state near (inits 7 none ∷ []) ready
unfolding do_request init_all_services push_event_to_queue take_event head answer_event
    handle_response handle_response_client_init free_tg_event
ready-Reached =
    follows (follows (starts 1 (chunks (first_piece ∷ pieces)) [] refl) (takes refl)) (answers refl)

two_bytes-KeepsContract : KeepsContract (two_bytes 0) (codes "demo.so") (codes "x") (21 ∷ 22 ∷ [])
two_bytes-KeepsContract = record {
  more = [];
  returned = λ x. refl;
  some_bytes = omega arith;
  fits_int = omega arith;
}

respond-AnswersWith_example :
    (u : System) × (v : System) × (read_client [] near 4 7 2 ready ≡ ok u)
    × (respond two_bytes [] (zeroed aligned) demo_services no_state near 1 u ≡ ok v)
    × (log : List (Event × Handled)) × (e : Event) × (h : Handled) × (v.log ≡ log ++ (e, h) ∷ [])
    × AnswersWith near (21 ∷ 22 ∷ []) h
    × Represents v.queue []
unfolding do_request init_all_services push_event_to_queue take_event head answer_event
    handle_response handle_response_client_init free_tg_event
respond-AnswersWith_example =
    respond-AnswersWith two_bytes [] aligned demos [] 2 no_state near (inits 7 none ∷ []) ready 4 7
      2 4 (codes "demo.so") (codes "x") (21 ∷ 22 ∷ []) [] first_piece pieces
      (record new_service { do_init = 7; service_name = some (codes "demo.so") }) ready-Reached
      (inl refl) refl refl refl refl (omega arith, (omega arith, (omega arith, tt))) refl
      (omega arith) (omega arith) (omega arith) (omega arith) (omega arith, omega arith)
      (lacks-All 0 (codes "demo.so") refl) (lacks-All b'/' (codes "demo.so") refl)
      (lacks-All 0 (codes "x") refl) (lacks-All 0 (codes "demo.so") refl, tt) refl
      two_bytes-KeepsContract

-- The answering thread finds nothing to do.
abbrev idle : System
idle = end_of (take_event ready)

Reached-waits_example : (idle.pushed ≡ handled_events idle.log) × Represents idle.queue []
unfolding do_request init_all_services push_event_to_queue take_event head answer_event
    handle_response handle_response_client_init free_tg_event
Reached-waits_example =
    Reached-waits two_bytes [] (zeroed aligned) demo_services no_state near (inits 7 none ∷ []) idle
      (follows ready-Reached (takes refl)) refl
