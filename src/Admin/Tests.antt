-- ===== src/Admin/Tests.antt =====
-- tg_process_admin.c: the theorems on a table with two clients.
use tgserver.Base.{
  ℕ, ◌≡◌, refl, [], ◌∷◌, ◌++◌, none, some, Option, pos, ok, Bytes, atoi, replicate, Run,
}
use tgserver.Context.{Client, Slots, State, write_fd, init_client, initial_context, find_client}
use tgserver.Context.Table.{with_table}
use tgserver.Reader.{chunk, read_data_from_main_process}
use tgserver.Response.{zeroed, aligned, codes, handle_response}
use tgserver.Response.Outcomes.{ends_with}
use tgserver.Admin.{write_data, close_message}
use tgserver.Admin.Commands.{write_data-ends}

abbrev near : Client
near = record init_client { pid = 17; write_pipe = pos 9; client_ip = some (b'1' ∷ []); port = 80 }

abbrev table : Slots
table = none ∷ some near ∷ []

abbrev server : State
server = with_table table initial_context

abbrev child : Client
child = record init_client { sockfd = pos 4; read_pipe = pos 8; write_pipe = pos 7 }

abbrev no_plugin : ℕ → Bytes → Run (Option Bytes)
no_plugin p memory = ok none

write_data-ends_example :
    (write_data (pos 3) (some (codes "tg://1041/" ++ (codes "17" ++ 0 ∷ []))) server
      ≡ ok (write_fd (pos 9) close_message ∷ []))
    × (read_data_from_main_process (0 ∷ []) (some child) (chunk close_message ∷ [])
        ≡ ok (record { code = pos 0; type_id = some (pos 1005); payload = none; rest = [] }))
    × (handle_response no_plugin []
          (zeroed aligned)
          (record { table = none; counts = 0 })
          (with_table (replicate 20 none) initial_context)
          child
          (some (record { type_id = pos 1005; payload = none }))
        ≡ ends_with (codes "tg://2007/") (replicate 20 none) initial_context child)
unfolding find_client atoi
write_data-ends_example =
    write_data-ends (pos 3) (codes "17" ++ 0 ∷ []) 16 8 server near child [] [] no_plugin []
      (zeroed aligned) (record { table = none; counts = 0 }) (replicate 20 none) initial_context
      refl refl refl
