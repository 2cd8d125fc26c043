-- ===== src/Admin/Commands.antt =====
-- tg_process_admin.c: what the commands do, up to the end of the client's process.
use tgserver.Base.{
  ℕ, zero, suc, ◌≡◌, refl, ◌∙◌, List, [], ◌∷◌, ◌++◌, Option, none, some, ℤ, pos, negsuc, ok, Bytes,
  strncmp_eq, atoi, digits_value, arith, Run,
}
use tgserver.Context.{Client, Context, Slots, State, write_fd, find_client}
use tgserver.Context.Loops.{registered}
use tgserver.Context.Table.{with_table}
use tgserver.Context.Signals.Lists.{Addressed, all_shown, get_current_clients_info-all_shown}
use tgserver.Reader.{chunk, Stream, read_data_from_main_process}
use tgserver.Reader.Messages.{read_data_from_main_process-digits}
use tgserver.Response.{NameArray, codes, handle_response}
use tgserver.Response.Outcomes.{ends_with, handle_response-ends_with}
use tgserver.Service.{Services}
use tgserver.Admin.{write_data, close_by_pid, list_clients, close_message, unknown_pid}

module _ (fd : ℤ) where
  -- The request "tg://1040/" has the list of the clients written to the descriptor, one line for
  -- each client in the table, and two line ends behind it, where every client has an IPv4 address.
  pub write_data-lists :
      (tail : Bytes) (xs : Slots) (g : Context) (ips : List Bytes)
      → Addressed (registered xs) ips
      → write_data fd (some (codes "tg://1040/" ++ tail)) (with_table xs g)
        ≡ ok (write_fd fd (all_shown (registered xs) ips) ∷ write_fd fd (10 ∷ 10 ∷ []) ∷ [])
  unfolding write_data list_clients strncmp_eq
  write_data-lists tail xs g ips a = rw (get_current_clients_info-all_shown xs g ips a)

  close_command :
      (args : Bytes) (id : ℤ) (s : State)
      → atoi args ≡ ok id
      → write_data fd (some (codes "tg://1041/" ++ args)) s ≡ close_by_pid fd id s
  unfolding write_data strncmp_eq
  close_command args id s e = rw e

  -- The request "tg://1041/id" with a number that is not positive, or under which no client is
  -- found, only has an error message with the number written to the descriptor.
  pub write_data-unknown :
      (args : Bytes) (id : ℕ) (negative : ℕ) (s : State)
      → find_client id s ≡ ok none
      → (atoi args ≡ ok (negsuc negative)
          → write_data fd (some (codes "tg://1041/" ++ args)) s
            ≡ ok (unknown_pid fd (negsuc negative)))
        × (atoi args ≡ ok (pos id)
            → write_data fd (some (codes "tg://1041/" ++ args)) s ≡ ok (unknown_pid fd (pos id)))
  unfolding close_by_pid
  write_data-unknown args zero negative s f =
      (λ e. close_command args (negsuc negative) s e, λ e. close_command args (pos zero) s e)
  write_data-unknown args (suc n) negative s f = (
    (λ e. close_command args (negsuc negative) s e),
    λ e. close_command args (pos (suc n)) s e ∙ rw f refl,
  )

  -- The request "tg://1041/id" for a client in the table ends the client's process: the main
  -- process writes one message to the client's pipe and nothing to the descriptor; the client's
  -- process, if a NUL stands on its stack behind the array of the number, reads it as the event
  -- 1005; and the handler of that event tells the peer "tg://2007/", closes its descriptors and
  -- those of the clients that the process knows, and exits.
  pub write_data-ends :
      (args : Bytes) (n r : ℕ) (s : State) (c child : Client) (stack : Bytes) (more : Stream)
      (do_request : ℕ → Bytes → Run (Option Bytes)) (memory : Bytes) (array : NameArray)
      (services : Services) (xs : Slots) (g : Context)
      → atoi args ≡ ok (pos (suc n))
      → find_client (suc n) s ≡ ok (some c)
      → child.read_pipe ≡ pos r
      → (write_data fd (some (codes "tg://1041/" ++ args)) s
          ≡ ok (write_fd c.write_pipe close_message ∷ []))
        × (read_data_from_main_process (0 ∷ stack) (some child) (chunk close_message ∷ more)
            ≡ ok (record { code = pos 0; type_id = some (pos 1005); payload = none; rest = more }))
        × (handle_response do_request memory array services
              (with_table xs g)
              child
              (some (record { type_id = pos 1005; payload = none }))
            ≡ ends_with (codes "tg://2007/") xs g child)
  unfolding close_by_pid digits_value
  write_data-ends args n r s c child stack more do_request memory array services xs g e f p = (
    close_command args (pos (suc n)) s e ∙ rw f refl,
    read_data_from_main_process-digits b'1' b'0' b'0' b'5' refl refl refl refl r 1005 child (0 ∷ [])
        (0 ∷ stack) more p (omega arith) refl,
    (handle_response-ends_with do_request memory array services xs g child none).1,
  )
