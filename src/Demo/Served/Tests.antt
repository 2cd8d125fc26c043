-- ===== src/Demo/Served/Tests.antt =====
-- plugins/demo/demo.c: a client process with this plugin, and one request.
use tgserver.Base.{
  inl, ℕ, ◌≡◌, refl, List, [], ◌∷◌, ◌++◌, Option, none, some, pos, Run, ok, fault, ◌>>=◌, Bytes,
  codes, lacks-All, length-replicate, replicate, arith,
}
use tgserver.Context.{Client, State, initial_context, init_client}
use tgserver.Context.Table.{with_table}
use tgserver.Event.{push_event_to_queue, head, free_tg_event}
use tgserver.Event.Cells.{Event}
use tgserver.Event.Refine.{Represents}
use tgserver.Event.{no_events}
use tgserver.Process.Interleaving.{gone}
use tgserver.Service.{Call, Service, Services, new_service, inits, init_all_services}
use tgserver.Reader.Inputs.{chunks}
use tgserver.Response.{zeroed, aligned, Handled, handle_response, handle_response_client_init}
use tgserver.Process.Interleaving.{
  System, do_request, read_client, take_event, answer_event, respond, Reached, starts, follows,
  takes, answers,
}
use tgserver.Process.Interleaving.Serves.{services_in, AnswersWith}
use tgserver.Demo
use tgserver.Demo.Points.{points_from}
use tgserver.Demo.Answers.{numbered}
use tgserver.Demo.Served.{segment, filled, init_point-filled, init_point-AnswersWith}

abbrev peer : Client
peer = record init_client { sockfd = pos 4; read_pipe = pos 8; write_pipe = pos 9 }

abbrev no_state : State
no_state = with_table (replicate 20 none) initial_context

abbrev whole_segment : Bytes
whole_segment = replicate segment 3

abbrev plugin : ℕ → Bytes → Run (Option Bytes)
plugin f memory = Demo.do_request (some (filled whole_segment)) memory >>= λ r. ok (some r)

abbrev demos : List (Bytes × Service)
demos = (codes "libdemo.so", record new_service { do_init = 7; do_request = 8 }) ∷ []

abbrev demo_services : Services
demo_services = services_in demos [] 2

abbrev first_piece : Bytes
first_piece = 20 ∷ 0 ∷ 0 ∷ 0 ∷ b't' ∷ []

abbrev pieces : List Bytes
pieces = (codes "g://libdemo.so/all" ++ 0 ∷ []) ∷ []

abbrev nothing : System
nothing = record { queue = no_events; phase = gone; socket = []; pipe = []; pushed = []; log = [] }

abbrev end_of : Run System → System
end_of (ok t) = t
end_of fault = nothing

abbrev began : Run (List Call × System) → System
began (ok r) = r.1
began fault = nothing

abbrev ready : System
ready = end_of (
    answer_event plugin [] (zeroed aligned) demo_services no_state peer
      (end_of (take_event (began (do_request 1 demo_services (chunks (first_piece ∷ pieces)) [])))))

ready-Reached :
    Reached plugin [] (zeroed aligned) demo_services no_state peer (inits 7 none ∷ []) ready
unfolding do_request init_all_services push_event_to_queue take_event head answer_event
    handle_response handle_response_client_init free_tg_event
ready-Reached =
    follows (follows (starts 1 (chunks (first_piece ∷ pieces)) [] refl) (takes refl)) (answers refl)

init_point-AnswersWith_example :
    (u : System) × (v : System) × (read_client [] peer 4 7 2 ready ≡ ok u)
    × (respond plugin [] (zeroed aligned) demo_services no_state peer 1 u ≡ ok v)
    × (log : List (Event × Handled)) × (e : Event) × (h : Handled) × (v.log ≡ log ++ (e, h) ∷ [])
    × AnswersWith peer (numbered 18 (points_from 0 18)) h
    × Represents v.queue []
unfolding do_request init_all_services push_event_to_queue take_event head answer_event
    handle_response handle_response_client_init free_tg_event
init_point-AnswersWith_example =
    init_point-AnswersWith plugin [] aligned whole_segment (filled whole_segment) demos [] 2
      no_state peer (inits 7 none ∷ []) ready 4 7 2 4 [] first_piece pieces
      (record new_service { do_init = 7; do_request = 8; service_name = some (codes "libdemo.so") })
      (length-replicate {A = ℕ} segment 3)
      (init_point-filled whole_segment (length-replicate {A = ℕ} segment 3)) (λ m. refl) refl
      (lacks-All 0 (codes "libdemo.so") refl, tt) ready-Reached (inl refl) refl refl refl refl
      (omega arith, (omega arith, tt)) refl (omega arith) (omega arith) (omega arith) (omega arith)
