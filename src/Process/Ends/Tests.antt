-- ===== src/Process/Ends/Tests.antt =====
-- tg_process.c: a server with one client that is shut down.
use tgserver.Base.{
  inl, ℕ, ◌≡◌, refl, List, [], ◌∷◌, ◌++◌, map, Option, none, some, pos, Run, ok, fault, Bytes,
  codes, replicate,
}
use tgserver.Context.{Slots, initial_context, write_fd}
use tgserver.Context.Loops.{registered}
use tgserver.Context.Table.{with_table}
use tgserver.Event.{no_events, push_event_to_queue, head, free_tg_event}
use tgserver.Service.{Service, Services, inits, service, null, new_service, init_all_services}
use tgserver.Reader.{chunk}
use tgserver.Response.{
  zeroed, aligned, Effect, Handled, act, handle_response, handle_response_client_init,
}
use tgserver.Response.Outcomes.{ends_with}
use tgserver.Process.{Arrival, entered, served, handle_host_shutdown_signal}
use tgserver.Process.Interleaving.{
  System, Reached, gone, do_request, read_main, take_event, answer_event, respond, starts, follows,
  takes, answers,
}
use tgserver.Process.Ends.{handle_host_shutdown_signal-respond}

abbrev visit : Arrival
visit = record {
  sockfd = pos 4;
  host = codes "10.0.0.1";
  port = 52000;
  to_child = (pos 5, pos 6);
  to_main = (pos 7, pos 8);
}

abbrev demos : List Service
demos = record new_service { do_init = 7 } ∷ []

abbrev one_service : Services
one_service = record { table = some (map service demos ++ null ∷ []); counts = 2 }

abbrev table : Slots
table = some (entered visit 18) ∷ replicate 19 none

abbrev silent : ℕ → Bytes → Run (Option Bytes)
silent f memory = ok none

abbrev no_slots : Slots
no_slots = replicate 20 none

abbrev nothing : System
nothing = record { queue = no_events; phase = gone; socket = []; pipe = []; pushed = []; log = [] }

abbrev end_of : Run System → System
end_of (ok t) = t
end_of fault = nothing

abbrev began : System
began = elim (do_request 1 one_service [] (chunk (codes "tg://1003/") ∷ [])) [
  | ok r ↦ r.1
  | fault ↦ nothing
]

abbrev ready : System
ready = end_of (
    answer_event silent (0 ∷ []) (zeroed aligned) one_service (with_table no_slots initial_context)
      (served visit) (end_of (take_event began)))

ready-Reached :
    Reached silent
      (0 ∷ [])
      (zeroed aligned)
      one_service
      (with_table no_slots initial_context)
      (served visit)
      (inits 7 none ∷ [])
      ready
unfolding do_request init_all_services push_event_to_queue take_event head answer_event
    handle_response handle_response_client_init free_tg_event
ready-Reached =
    follows (follows (starts 1 [] (chunk (codes "tg://1003/") ∷ []) refl) (takes refl))
      (answers refl)

handle_host_shutdown_signal-respond_example :
    ((sooner others : List Effect) × (handle_host_shutdown_signal
          (λ fd. pos 10)
          one_service
          (with_table table initial_context)
        ≡ ok (sooner ++ act (write_fd (pos 6) (codes "tg://1003/")) ∷ others)))
    × (u : System) × (v : System) × (h : Handled) × (read_main (0 ∷ []) (served visit) 2 ready
        ≡ ok u)
    × (respond silent
          (0 ∷ [])
          (zeroed aligned)
          one_service
          (with_table no_slots initial_context)
          (served visit)
          1
          u
        ≡ ok v)
    × (v.phase ≡ gone)
    × (v.log ≡ ready.log ++ ((pos 1003, none), h) ∷ [])
    × (ends_with (codes "tg://2003/") no_slots initial_context (served visit) ≡ ok h)
unfolding do_request init_all_services push_event_to_queue take_event head answer_event
    handle_response handle_response_client_init free_tg_event registered
handle_host_shutdown_signal-respond_example =
    handle_host_shutdown_signal-respond silent 0 [] (zeroed aligned) one_service no_slots
      initial_context visit (λ fd. pos 10) demos [] 2 table initial_context 18 5 6 [] []
      (inits 7 none ∷ []) ready 2 [] refl refl refl ready-Reached (inl refl) refl refl refl
