-- ===== src/Process/Interrupted/Drift.antt =====
-- tg_process.c: the main process whose do_accept may be interrupted by the handler of SIGCHLD, over
-- any number of connections and quits.
use tgserver.Base.{ℕ, ◌+◌, ◌≡◌, List, none, length, ok}
use tgserver.Context.{Context, Slots, State, Action, init}
use tgserver.Context.Loops.{registered}
use tgserver.Context.Table.{with_table}
use tgserver.Process.{Arrival, handle_child_quit_signal}
use tgserver.Process.Interrupted.{accept_interrupted}
use tgserver.Process.Interrupted.Counting.{counting}

-- The invariant of the table, but for curClientCounts, which is `drift` more than the number of the
-- clients.
pub record IsOver (drift : ℕ) (s : State) : Type 0 where
  pub table : Slots
  pub globals : Context
  pub shape : s ≡ with_table table (counting globals (drift + length (registered table)))

-- A connection, with the handler for `early` and `torn` in the middle of it, and the handler.
pub data Step : State → State → Type 0 where
  accepts :
      (early torn : List ℕ) (a : Arrival) (pid : ℕ) (s t : State) (acts : List Action)
      → accept_interrupted early torn a pid s ≡ ok (acts, t)
      → Step s t
  reaps :
      (pids : List ℕ) (s t : State) (acts : List Action)
      → handle_child_quit_signal pids s ≡ ok (acts, t)
      → Step s t

pub data Reached : State → Type 0 where
  starts :
      (s : State)
      → init (record { clients = none; clients_ar_size = 0; context = none }) ≡ ok s
      → Reached s
  follows : (s t : State) → Reached s → Step s t → Reached t
