-- ===== src/Process/Listening/Rounds.antt =====
-- tg_process.c: the start of the main loop.
use tgserver.Base.{◌≡◌, refl, ◌⊎◌, inl, inr, true, false, some, pos, ok, Bool-cases}
use tgserver.Context.{Server, Slots, Context, State}
use tgserver.Context.Signals.{is_minus_one}
use tgserver.Context.Table.{with_table}
use tgserver.Process.Listening.{
  Sockets, Address, fails, listens, given, start_listen, socket_w, bind_w, listen_w, enter_admin,
  open_admin_pipe,
}

-- The globals before startListen, with the context of init: no descriptor of the administrator.
abbrev pub before : Slots → Context → Server → State
before xs g v = with_table xs (record g { server = some v; local_admin_fd = pos 0 })

abbrev pub address_of : Server → Address
address_of v = record { host = given v.listen_ip; port = v.port }

-- startListen exits with status 1 where socket, bind or listen fails, with listenfd entered where
-- only socket did not; otherwise it comes to the loop with listenfd, bound to the address and the
-- port of the server, and localAdminfd is the pipe of the administrator where that could be opened,
-- and stays 0 where it could not.
pub start_listen-begins :
    (k : Sockets) (xs : Slots) (g : Context) (v : Server)
    → (is_minus_one k.socket ≡ true → start_listen k (before xs g v) ≡ ok (fails (before xs g v)))
      × (is_minus_one k.socket ≡ false
          → (is_minus_one k.bound ≡ true) ⊎ (is_minus_one k.listened ≡ true)
          → start_listen k (before xs g v)
            ≡ ok (fails (before xs (record g { listenfd = k.socket }) v)))
      × (is_minus_one k.socket ≡ false
          → is_minus_one k.bound ≡ false
          → is_minus_one k.listened ≡ false
          → (is_minus_one (open_admin_pipe k) ≡ true
              → start_listen k (before xs g v)
                ≡ ok (listens (address_of v) (before xs (record g { listenfd = k.socket }) v)))
            × (is_minus_one (open_admin_pipe k) ≡ false
                → start_listen k (before xs g v)
                  ≡ ok (
                      listens (address_of v) (
                        with_table xs (record g {
                          server = some v;
                          listenfd = k.socket;
                          local_admin_fd = open_admin_pipe k;
                        })))))
unfolding start_listen socket_w bind_w listen_w enter_admin
start_listen-begins k xs g v = (
  (λ e. rw e refl),
  (λ e h. elim h [
    | inl b ↦ rw (e, b) refl
    | inr b ↦ elim (Bool-cases (is_minus_one k.bound)) [
      | inl c ↦ rw (e, c) refl
      | inr c ↦ rw (e, c, b) refl
    ]
  ]),
  λ e b l. ((λ f. rw (e, b, l, f) refl), λ f. rw (e, b, l, f) refl),
)
