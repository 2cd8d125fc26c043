-- ===== src/Process.antt =====
-- tg_process.c: the main process: a connection, the end of a client process, the shutdown, and the
-- commands of the administrator. Process.Threads and Process.Interleaving have the threads of a
-- client process, Process.Listening the main loop, Process.Interrupted the signal of a child in the
-- middle of a connection.
pub mod Clients
pub mod Shutdown
pub mod Threads
pub mod Interleaving
pub mod Listening
pub mod Interrupted
pub mod Ends
mod Tests
use tgserver.Base.{
  ℕ, zero, suc, ◌+◌, ◌-◌, Bool, true, false, List, [], ◌∷◌, ◌++◌, map, Option, none, some, leb,
  if◌then◌else◌, length, replicate, ℤ, pos, negsuc, minus_one, leb_int, Run, ok, fault, ◌>>=◌,
  Bytes, strcmp_eq, with_nul,
}
use tgserver.Context.{
  Client, Context, State, Action, close_fd, init_client, add_client, close_client, close_all_client,
  release,
}
use tgserver.Context.Signals.{is_minus_one, send_signal_to_all_clients}
use tgserver.Service.{Services, destroy_all_services}
use tgserver.Response.{Effect, act, call, codes}
use tgserver.Reader.{Stream, read_fd}
use tgserver.Admin.{write_data}

-- What accept, inet_ntop and the two calls of pipe give; a pipe is its end to read and its end to
-- write.
pub record Arrival : Type 0 where
  pub sockfd : ℤ
  pub host : Bytes
  pub port : ℕ
  pub to_child : ℤ × ℤ
  pub to_main : ℤ × ℤ

-- What fork gives.
pub data Fork : Type 0 where
  child failed : Fork
  parent : ℕ → Fork

-- How do_accept goes on: it returns, or, in the child, exits or runs __do_request.
pub data Accepted : Type 0 where
  returned : List Action → State → ℤ → Accepted
  exited : List Action → Accepted
  serving : List Action → Client → State → Accepted

abbrev pub set_pipe : ℤ → ℤ → Client → Client
set_pipe readfd writefd c =
    let r = if is_minus_one readfd then c.read_pipe else readfd in
    let w = if is_minus_one writefd then c.write_pipe else writefd in
    record c { read_pipe = r; write_pipe = w }

abbrev pub set_client : Arrival → Client → Client
set_client a c = record c { port = a.port; client_ip = some a.host }

-- The client as the main process enters it, and as its own process knows it.
abbrev pub entered : Arrival → ℕ → Client
entered a pid = set_pipe a.to_main.0 a.to_child.1 (record (set_client a init_client) { pid = pid })

abbrev pub served : Arrival → Client
served a =
    set_pipe a.to_child.0 a.to_main.1 (record (set_client a init_client) { sockfd = a.sockfd })

accept_parent : Arrival → ℕ → State → Run Accepted
accept_parent a pid s = do
  t ← add_client (some (entered a pid)) s
  ok (returned (close_fd a.sockfd ∷ close_fd a.to_main.1 ∷ close_fd a.to_child.0 ∷ []) t (pos 0))

-- The child with its copies of the table and of the context.
pub accept_child : Arrival → State → Run Accepted
accept_child a s = do
  r ← close_all_client s
  elim (r.1).context [
    | none ↦ fault
    | some g ↦ elim g.server [
      | none ↦ fault
      | some v ↦
          let acts =
            close_fd a.to_main.0
            ∷ close_fd a.to_child.1
            ∷ (r.0 ++ close_fd g.listenfd ∷ close_fd g.local_admin_fd ∷ []) in
          if leb_int v.max_clients g.cur_client_counts
          then ok (exited acts)
          else ok (serving acts (served a) (r.1))
    ]
  ]

unfoldable pub do_accept : Arrival → Fork → State → Run Accepted
unfolding accept_parent accept_child
do_accept a f s = if is_minus_one a.sockfd then ok (returned [] s minus_one) else elim f [
  | child ↦ accept_child a s
  | failed ↦ ok (returned [] s minus_one)
  | parent pid ↦ accept_parent a pid s
]

-- __handle_child_quit_signal, with the process ids that waitpid gives one after the other.
unfoldable pub handle_child_quit_signal : List ℕ → State → Run (List Action × State)
handle_child_quit_signal [] s = ok ([], s)
handle_child_quit_signal (pid ∷ pids) s = do
  r ← close_client pid s
  q ← handle_child_quit_signal pids (r.1)
  ok (r.0 ++ q.0, q.1)

module _ (written : ℤ → ℤ) where
  -- __handle_host_shutdown_signal, behind which the process has exited with status 0.
  unfoldable pub handle_host_shutdown_signal : Services → State → Run (List Effect)
  handle_host_shutdown_signal services s = do
    told ← send_signal_to_all_clients written (some (codes "tg://1003/")) s
    closed ← close_all_client s
    calls ← destroy_all_services services
    r ← release (closed.1)
    ok (map act told.0 ++ (map act closed.0 ++ (map call calls ++ map act r.0)))

  -- do_admin: what was done, whether the process has exited, and what is left in the pipe. `fd` is
  -- the descriptor of the pipe to the administrator.
  unfoldable pub do_admin : ℤ → Services → State → Stream → Run (List Effect × (Bool × Stream))
  do_admin fd services s pipe =
      let r = read_fd 20 pipe in
      let buf = r.bytes ++ replicate (20 - length r.bytes) 0 in
      elim r.count [
        | negsuc n ↦ ok ([], (false, r.rest))
        | pos zero ↦ ok ([], (false, r.rest))
        | pos (suc n) ↦ do
          shutdown ← strcmp_eq buf (with_nul (codes "tg://1003/"))
          let ends = handle_host_shutdown_signal services s >>= λ es. ok (es, (true, r.rest))
          let obeys = write_data fd (some buf) s >>= λ acts. ok (map act acts, (false, r.rest))
          if shutdown then ends else obeys
      ]
