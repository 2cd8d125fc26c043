-- ===== src/Demo2/Tests.antt =====
-- plugins/demo2/demo2.cpp: a process whose one service is this plugin.
use tgserver.Base.{
  arith, ℕ, ◌≡◌, refl, List, [], ◌∷◌, Option, none, some, pos, Run, ok, Bytes, codes, lacks-All,
  replicate,
}
use tgserver.Context.{Client, initial_context, init_client}
use tgserver.Context.Table.{with_table}
use tgserver.Service.{Service, new_service}
use tgserver.Response.{zeroed, aligned, returns, handle_response}
use tgserver.Response.Requests.{request_for}
use tgserver.Process.Interleaving.Serves.{services_in}
use tgserver.Demo2.{create, init, do_request, release}
use tgserver.Demo2.Silence.{handle_response-silent}

abbrev plugin : ℕ → Bytes → Run (Option Bytes)
plugin f memory = do_request memory

abbrev demos : List (Bytes × Service)
demos = (codes "libdemo2.so", record new_service { do_request = 1 }) ∷ []

abbrev peer : Client
peer = record init_client { sockfd = pos 4; read_pipe = pos 8; write_pipe = pos 9 }

handle_response-silent_example :
    handle_response plugin []
      (zeroed aligned)
      (services_in demos [] 2)
      (with_table (replicate 20 none) initial_context)
      peer
      (some (record {
        type_id = pos 1001;
        payload = some (request_for (codes "libdemo2.so") (codes "all") []);
      }))
    ≡ ok (record { effects = []; after = returns (pos 0) })
handle_response-silent_example =
    handle_response-silent plugin [] aligned demos [] 2
      (with_table (replicate 20 none) initial_context) peer (codes "libdemo2.so") (codes "all") []
      (record new_service { do_request = 1; service_name = some (codes "libdemo2.so") })
      (omega arith, omega arith) (lacks-All 0 (codes "libdemo2.so") refl)
      (lacks-All b'/' (codes "libdemo2.so") refl) (lacks-All 0 (codes "all") refl)
      (lacks-All 0 (codes "libdemo2.so") refl, tt) refl (λ m. refl)

others : (create [] ≡ none) × (init ≡ pos 0) × (release ≡ pos 0)
unfolding create init release
others = (refl, refl, refl)
