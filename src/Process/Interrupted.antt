-- ===== src/Process/Interrupted.antt =====
-- tg_process.c: do_accept in the main process while the handler of SIGCHLD interrupts it. Nothing
-- blocks the signal, so that the handler may run between any two accesses to the table and to
-- curClientCounts. It runs here right behind fork, for the processes `early`, and within
-- curClientCounts++ of addClient, behind the reading of the counter, for the processes `torn`.
pub mod Reaping
pub mod Counting
pub mod Ghosts
pub mod Drift
mod Tests
use tgserver.Base.{ℕ, List, [], ◌∷◌, ◌++◌, Option, none, some, ℤ, pos, Run, ok, fault, ◌>>=◌}
use tgserver.Context.{State, Action, close_fd, enter_client, inc, count_clients}
use tgserver.Process.{Arrival, entered, handle_child_quit_signal}

-- The value of curClientCounts that is read.
pub read_counts : State → Run ℤ
read_counts s = elim s.context [ none ↦ fault | some g ↦ ok g.cur_client_counts ]

-- do_accept in the parent, behind a fork that gave the process id: what was closed, and the table.
unfoldable pub accept_interrupted :
    List ℕ → List ℕ → Arrival → ℕ → State → Run (List Action × State)
unfolding read_counts
accept_interrupted early torn a pid s = do
  e ← handle_child_quit_signal early s
  t ← enter_client (entered a pid) e.1
  n ← read_counts t
  h ← handle_child_quit_signal torn t
  u ← count_clients (λ m. inc n) h.1
  ok (e.0 ++ ((close_fd a.sockfd ∷ close_fd a.to_main.1 ∷ close_fd a.to_child.0 ∷ []) ++ h.0), u)
