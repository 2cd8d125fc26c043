-- ===== src/Response/Tests.antt =====
-- tg_process_response.c: the theorems on a table with one service.
use tgserver.Base.{
  refl, codes, lacks-All, inr, negsuc, ℕ, ◌≡◌, ◌⊎◌, ◌<◌, ◌≤◌, arith, List, [], ◌∷◌, none, some,
  replicate, Option, pos, minus_one, ok, fault, ◌>>=◌, Bytes, Run,
}
use tgserver.Context.{Client, State, initial_context, init_client}
use tgserver.Context.Table.{with_table}
use tgserver.Service.{Services, new_service, Service}
use tgserver.Service.Table.{at_null, found}
use tgserver.Response.{zeroed, aligned, returns, reply, handle_response}
use tgserver.Response.Requests.{
  asks, request_for, answer_by, handle_response-answers, Frames, reply-Frames,
}
use tgserver.Response.Outcomes.{handle_response-range}

abbrev peer : Client
peer = record init_client { sockfd = pos 4; read_pipe = pos 8; write_pipe = pos 9 }

abbrev table : State
table = with_table (replicate 20 none) initial_context

abbrev plugin : Service
plugin = record new_service { do_request = 1 }

abbrev no_services : Services
no_services = record { table = none; counts = 0 }

-- A plugin that returns two bytes for every request.
abbrev two_bytes : ℕ → Bytes → Run (Option Bytes)
two_bytes p memory = ok (some (2 ∷ 0 ∷ 0 ∷ 0 ∷ 21 ∷ 22 ∷ []))

abbrev demos : List (Bytes × Service)
demos = (codes "libdemo.so", plugin) ∷ []

-- The name is copied where the compiler keeps whole blocks of 16 bytes, and leaves the array where
-- it keeps no more than is declared.
handle_response-answers_example :
    (asks two_bytes [] aligned demos [] 2 table peer (codes "libdemo.so") [] (codes "x") (7 ∷ [])
      ≡ (found (codes "libdemo.so") demos (at_null [])
          >>= answer_by two_bytes peer (request_for (codes "libdemo.so") (codes "x") (7 ∷ []))))
    × (asks two_bytes [] (λ n. n) demos [] 2 table peer (codes "libdemo.so") [] (codes "x") (7 ∷ [])
        ≡ fault)
handle_response-answers_example = (
  (handle_response-answers two_bytes [] aligned demos [] 2 table peer (codes "libdemo.so") []
        (codes "x") (7 ∷ []) (lacks-All 0 (codes "libdemo.so") refl)
        (lacks-All b'/' (codes "libdemo.so") refl) tt (lacks-All 0 (codes "x") refl)
        (lacks-All 0 (codes "libdemo.so") refl, tt)).0
      (omega arith, omega arith),
  (handle_response-answers two_bytes [] (λ n. n) demos [] 2 table peer (codes "libdemo.so") []
        (codes "x") (7 ∷ []) (lacks-All 0 (codes "libdemo.so") refl)
        (lacks-All b'/' (codes "libdemo.so") refl) tt (lacks-All 0 (codes "x") refl)
        (lacks-All 0 (codes "libdemo.so") refl, tt)).1
      (inr (omega arith)),
)

reply-Frames_example : Frames peer (21 ∷ 22 ∷ []) (reply peer (some (2 ∷ 0 ∷ 0 ∷ 0 ∷ 21 ∷ 22 ∷ [])))
reply-Frames_example = reply-Frames peer (21 ∷ 22 ∷ []) [] (omega arith) (omega arith)

handle_response-range_example :
    ((1020 < 1000) ⊎ (1050 < 1020)
      → handle_response two_bytes []
          (zeroed aligned)
          no_services
          table
          peer
          (some (record { type_id = pos 1020; payload = none }))
        ≡ ok (record { effects = []; after = returns minus_one }))
    × (handle_response two_bytes []
          (zeroed aligned)
          no_services
          table
          peer
          (some (record { type_id = negsuc 1020; payload = none }))
        ≡ ok (record { effects = []; after = returns minus_one }))
    × (1006 ≤ 1020
        → 1020 ≤ 1050
        → handle_response two_bytes []
            (zeroed aligned)
            no_services
            table
            peer
            (some (record { type_id = pos 1020; payload = none }))
          ≡ fault)
handle_response-range_example =
    handle_response-range two_bytes [] (zeroed aligned) no_services table peer 1020 none
