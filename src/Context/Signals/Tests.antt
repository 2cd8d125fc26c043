-- ===== src/Context/Signals/Tests.antt =====
-- tg_context.c: the theorems on the messages and the list, on tables with two clients.
use tgserver.Base.{◌≡◌, refl, [], ◌∷◌, none, some, pos, ℤ, ok}
use tgserver.Context.{Client, Slots, write_fd, init_client, initial_context}
use tgserver.Context.Table.{with_table}
use tgserver.Context.Signals.{send_signal_to_all_clients}

abbrev near : Client
near = record init_client {
  pid = 17;
  write_pipe = pos 9;
  client_ip = some (b'1' ∷ b'0' ∷ []);
  port = 80;
}

abbrev far : Client
far = record init_client { pid = 18; client_ip = some (b'9' ∷ []) }

abbrev two_clients : Slots
two_clients = none ∷ some near ∷ some far ∷ []

abbrev all_written : ℤ → ℤ
all_written fd = pos 9

-- The client without a pipe is not reached.
sends :
    send_signal_to_all_clients all_written
      (some (b'x' ∷ []))
      (with_table two_clients initial_context)
    ≡ ok (write_fd (pos 9) (b'x' ∷ []) ∷ [], 1)
unfolding send_signal_to_all_clients
sends = refl
