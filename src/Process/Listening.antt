-- ===== src/Process/Listening.antt =====
-- tg_process.c: startListen, the sockets and the main loop. What the calls of the system give is a
-- parameter. A handler of the signal of a child runs between two rounds; Process.Interrupted has the
-- handler in the middle of a connection.
pub mod Rounds
mod Tests
use tgserver.Base.{
  ℕ, Bool, true, false, ◌&&◌, List, [], ◌∷◌, ◌++◌, map, Option, none, some, if◌then◌else◌, ltb,
  ◌==◌, not, ℤ, pos, negsuc, minus_one, is_nonneg, Run, ok, fault, ◌>>=◌, Bytes,
}
use tgserver.Context.{Client, Context, State, Action}
use tgserver.Context.Signals.{is_minus_one}
use tgserver.Service.{Services}
use tgserver.Reader.{Stream}
use tgserver.Response.{Effect, act}
use tgserver.Process.{
  Arrival, Fork, Accepted, returned, exited, serving, do_accept, handle_child_quit_signal, do_admin,
}

-- What socket, bind, listen, mkfifo and open return, and whether mkfifo failed with EEXIST.
pub record Sockets : Type 0 where
  pub socket : ℤ
  pub bound : ℤ
  pub listened : ℤ
  pub mkfifo : ℤ
  pub exists : Bool
  pub opened : ℤ

-- The address for bind: `none` is INADDR_ANY, and the port is as it is given to htons.
pub record Address : Type 0 where
  pub host : Option Bytes
  pub port : ℤ

-- The process exits with status 1, or comes to the main loop.
pub data Begun : Type 0 where
  fails : State → Begun
  listens : Address → State → Begun

-- A non-empty string.
abbrev pub given : Option Bytes → Option Bytes
given none = none
given (some []) = none
given (some (c ∷ ip)) = some (c ∷ ip)

-- The descriptor that open_admin_pipe returns.
unfoldable pub open_admin_pipe : Sockets → ℤ
open_admin_pipe k = if not (is_nonneg k.mkfifo) && not k.exists then k.mkfifo else k.opened

-- A checked call: the process exits with status 1, or goes on.
pub data Wrapped : Type 0 where
  exits_now passes : State → Wrapped

pub socket_w : Sockets → State → Run Wrapped
socket_w k s = if is_minus_one k.socket then ok (exits_now s) else elim s.context [
  | none ↦ fault
  | some g ↦ ok (passes (record s { context = some (record g { listenfd = k.socket }) }))
]

pub bind_w : Sockets → State → Run (Address × Wrapped)
bind_w k s = elim s.context [
  | none ↦ fault
  | some g ↦ elim g.server [
    | none ↦ fault
    | some v ↦
        let w = if is_minus_one k.bound then exits_now s else passes s in
        ok (record { host = given v.listen_ip; port = v.port }, w)
  ]
]

pub listen_w : Sockets → State → Run Wrapped
listen_w k s = elim s.context [
  | none ↦ fault
  | some g ↦ ok (if is_minus_one k.listened then exits_now s else passes s)
]

-- The descriptor of the pipe is entered where there is one.
pub enter_admin : ℤ → State → Run State
enter_admin fd s = elim s.context [
  | none ↦ fault
  | some g ↦ ok (
      if is_minus_one fd then s else record s { context = some (record g { local_admin_fd = fd }) })
]

-- startListen up to the loop.
unfoldable pub start_listen : Sockets → State → Run Begun
start_listen k s = do
  w1 ← socket_w k s
  elim w1 [
    | exits_now t ↦ ok (fails t)
    | passes s1 ↦ do
      w2 ← bind_w k s1
      elim w2.1 [
        | exits_now t ↦ ok (fails t)
        | passes s2 ↦ do
          w3 ← listen_w k s2
          elim w3 [
            | exits_now t ↦ ok (fails t)
            | passes s3 ↦ do t ← enter_admin (open_admin_pipe k) s3; ok (listens w2.0 t)
          ]
      ]
  ]

-- What a round of the loop finds: the value of select, the connection where listenfd is ready,
-- whether the pipe of the administrator is ready, and the descriptor of the pipe for the answer.
pub record Round : Type 0 where
  pub selected : ℤ
  pub arrival : Option (Arrival × Fork)
  pub commanded : Bool
  pub answer_fd : ℤ

-- The loop goes on with the table and what is left in the pipe; the process has exited with status
-- 0; or it is a child and runs __do_request.
pub data Goes : Type 0 where
  on : List Effect → State → Stream → Goes
  stopped : List Effect → Goes
  child_serves : List Effect → Client → State → Goes

-- The test of listenfd.
accept_ready : Option (Arrival × Fork) → State → Run Accepted
accept_ready none s = ok (returned [] s (pos 0))
accept_ready (some (a, f)) s = do_accept a f s

module _ (written : ℤ → ℤ) (services : Services) where
  -- The test of localAdminfd.
  admin_ready : Round → List Effect → State → Stream → Run Goes
  admin_ready r done s pipe =
      let commands = (do
        a ← do_admin written r.answer_fd services s pipe
        ok (if a.1.0 then stopped (done ++ a.0) else on (done ++ a.0) s a.1.1)) in
      if r.commanded then commands else ok (on done s pipe)

  -- What follows do_accept.
  accepted_then : Round → Stream → Accepted → Run Goes
  unfolding admin_ready
  accepted_then r pipe (returned acts s n) = admin_ready r (map act acts) s pipe
  accepted_then r pipe (exited acts) = ok (stopped (map act acts))
  accepted_then r pipe (serving acts c s) = ok (child_serves (map act acts) c s)

  -- A round of the loop.
  unfoldable pub listen_round : Round → State → Stream → Run Goes
  unfolding accept_ready accepted_then
  listen_round r s pipe =
      let handled = accept_ready r.arrival s >>= λ a. accepted_then r pipe a in
      if is_minus_one r.selected then ok (on [] s pipe) else handled
