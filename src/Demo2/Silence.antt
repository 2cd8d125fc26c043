-- ===== src/Demo2/Silence.antt =====
-- plugins/demo2/demo2.cpp behind tg_process_response.c: what a client of the plugin gets.
use tgserver.Base.{ℕ, refl, ◌≡◌, ◌∙◌, List, [], append-nil, Option, some, All, pos, Run, ok, Bytes}
use tgserver.Context.{Client, State}
use tgserver.Util.Search.{Lacks}
use tgserver.Service.{Service, Slot}
use tgserver.Service.Table.{NoNul, at_null, found}
use tgserver.Response.{zeroed, returns, handle_response, reply}
use tgserver.Response.Requests.{Fits, request_for, handle_response-answers}
use tgserver.Process.Interleaving.Serves.{services_in}
use tgserver.Demo2.{do_request}

-- A request "tg://name/args" for a service whose function is that of this plugin is handled without
-- an error, and nothing is sent for it: the client is left without an answer. Neither the request
-- nor the names of the services hold another NUL, the name holds no "/", the array of the name is
-- long enough for it, and a 0 stands behind the copy.
pub handle_response-silent :
    (plugin : ℕ → Bytes → Run (Option Bytes)) (stack : Bytes) (reserved : ℕ → ℕ)
    (ss : List (Bytes × Service)) (free : List Slot) (counts : ℕ) (s : State) (c : Client)
    (name args tail : Bytes) (q : Service)
    → Fits reserved name
    → NoNul name
    → Lacks b'/' name
    → NoNul args
    → All (λ x. NoNul x.0) ss
    → found name ss (at_null free) ≡ ok (some q)
    → ((memory : Bytes) → plugin q.do_request memory ≡ do_request memory)
    → handle_response plugin stack
        (zeroed reserved)
        (services_in ss free counts)
        s
        c
        (some (record { type_id = pos 1001; payload = some (request_for name args tail) }))
      ≡ ok (record { effects = []; after = returns (pos 0) })
unfolding do_request reply
handle_response-silent plugin stack reserved ss free counts s c name args tail q fits n l a h f is =
    (handle_response-answers plugin stack reserved ss free counts s c name [] args tail n l tt a
        h).0
      fits
    ∙ rw (append-nil name) (rw f (rw (is (request_for name args tail)) refl))
