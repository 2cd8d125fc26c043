-- ===== src/Admin.antt =====
-- tg_process_admin.c: the commands of the administrator.
pub mod Commands
mod Tests
use tgserver.Base.{
  ℕ, zero, suc, ◌+◌, ◌-◌, Bool, true, false, List, [], ◌∷◌, ◌++◌, Option, none, some, ◌==◌,
  if◌then◌else◌, drop, ℤ, pos, negsuc, Run, ok, fault, ◌>>=◌, Bytes, strncmp_eq, with_nul, atoi,
}
use tgserver.Context.{State, Action, write_fd, find_client}
use tgserver.Context.Signals.{decimal, get_current_clients_info}
use tgserver.Response.{codes}

-- sprintf of an int with %d.
abbrev signed_decimal : ℤ → Bytes
signed_decimal (pos n) = decimal n
signed_decimal (negsuc n) = b'-' ∷ decimal (n + 1)

abbrev pub unknown_pid : ℤ → ℤ → List Action
unknown_pid fd id = write_fd fd (codes "unkown pid:" ++ (signed_decimal id ++ 10 ∷ [])) ∷ []

-- The message "tg://1005" with its NUL, which is counted among the ten bytes.
abbrev pub close_message : Bytes
close_message = with_nul (codes "tg://1005")

-- The command tg://1041/ for this number.
close_by_pid : ℤ → ℤ → State → Run (List Action)
close_by_pid fd (negsuc n) s = ok (unknown_pid fd (negsuc n))
close_by_pid fd (pos zero) s = ok (unknown_pid fd (pos zero))
close_by_pid fd (pos (suc n)) s = do
  r ← find_client (suc n) s
  ok (elim r [
    | none ↦ unknown_pid fd (pos (suc n))
    | some c ↦ write_fd c.write_pipe close_message ∷ []
  ])

-- The command tg://1040/; the list is never NULL, since malloc does not fail.
list_clients : ℤ → State → Run (List Action)
list_clients fd s = do
  info ← get_current_clients_info s
  ok (write_fd fd info ∷ write_fd fd (10 ∷ 10 ∷ []) ∷ [])

-- write_data: `memory` is what the request points to, `none` is NULL.
unfoldable pub write_data : ℤ → Option Bytes → State → Run (List Action)
unfolding close_by_pid list_clients
write_data fd none s = ok []
write_data fd (some []) s = fault
write_data fd (some (c ∷ memory)) s = if c == 0 then ok [] else (do
  listing ← strncmp_eq 10 (c ∷ memory) (with_nul (codes "tg://1040/"))
  closing ← strncmp_eq 10 (c ∷ memory) (with_nul (codes "tg://1041/"))
  let closed = atoi (drop 9 memory) >>= λ id. close_by_pid fd id s
  if listing then list_clients fd s else if closing then closed else ok [])
