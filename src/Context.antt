-- ===== src/Context.antt =====
-- tg_context.c: the table of the connected clients and the server context.
-- Memory is as the source uses it: the table is an array that may be NULL, a loop runs over
-- clients_ar_size slots, and to read or write outside the array or through NULL is a fault. malloc
-- does not fail (the source does not test it). An operation gives the calls on descriptors beside
-- the new global variables. The Linux branch is modelled, as the Makefile builds it.
mod Globals
pub mod Loops
pub mod Table
pub mod Counts
pub mod Signals
mod Tests
unfoldable pub use Globals.*
use tgserver.Base.{
  ℕ, zero, suc, ◌+◌, Bool, List, [], ◌∷◌, ◌++◌, Option, none, some, ◌==◌, if◌then◌else◌, replicate,
  memcpy, store, ℤ, pos, negsuc, minus_one, is_nonneg, Run, ok, fault, ◌>>=◌, Bytes,
}

abbrev pub when : Bool → Action → List Action
when b a = if b then a ∷ [] else []

-- releaseClient; the structure and the address are freed behind the calls.
unfoldable pub release_client : Option Client → List Action
release_client none = []
release_client (some c) =
    when (is_nonneg c.sockfd) (shutdown_fd c.sockfd)
    ++ (when (is_nonneg c.read_pipe) (close_fd c.read_pipe)
        ++ when (is_nonneg c.write_pipe) (close_fd c.write_pipe))

-- destroyClient.
abbrev pub destroy_client : Option Client → List Action
destroy_client c = release_client c

-- The memory that g_clients points to; behind NULL there is none.
abbrev pub slots : State → Slots
slots s = elim s.clients [ none ↦ [] | some xs ↦ xs ]

-- The loop of releaseClientArray over the slots left.
pub release_slots : ℕ → Slots → Run (List Action)
release_slots zero xs = ok []
release_slots (suc n) [] = fault
release_slots (suc n) (c ∷ xs) = do acts ← release_slots n xs; ok (release_client c ++ acts)

-- appendClient.
pub append_client : State → Run State
append_client s =
    let new_counts = s.clients_ar_size + default_max_clients in
    elim s.clients [
      | none ↦
          ok (record s { clients = some (replicate new_counts none); clients_ar_size = new_counts })
      | some old ↦ do
        copied ← memcpy s.clients_ar_size old
        ok (record s {
          clients = some (copied ++ replicate default_max_clients none);
          clients_ar_size = new_counts;
        })
    ]

-- The structures as init fills them: zeroed, but for the port and the limit.
abbrev pub initial_server : Server
initial_server = record {
  port = pos default_listen_port;
  listen_ip = none;
  name = none;
  version = pos 0;
  max_clients = pos default_max_clients;
}

abbrev pub initial_context : Context
initial_context = record {
  server = some initial_server;
  log_level = 0;
  cur_client_counts = pos 0;
  listenfd = pos 0;
  local_admin_fd = pos 0;
}

unfoldable pub init : State → Run State
unfolding append_client
init s = do t ← append_client s; ok (record t { context = some initial_context })

-- The part of release that closes the sockets of the context.
pub release_context : Option Context → List Action
release_context none = []
release_context (some c) =
    (if is_nonneg c.listenfd then shutdown_fd c.listenfd ∷ close_fd c.listenfd ∷ [] else [])
    ++ when (is_nonneg c.local_admin_fd) (close_fd c.local_admin_fd)

abbrev pub released : State
released = record { clients = none; clients_ar_size = 0; context = none }

unfoldable pub release : State → Run (List Action × State)
unfolding release_slots release_context
release s = elim s.clients [
  | none ↦ ok (release_context s.context, released)
  | some xs ↦ do
    acts ← release_slots s.clients_ar_size xs
    ok (acts ++ release_context s.context, released)
]

-- initClient.
abbrev pub init_client : Client
init_client = record {
  pid = 0;
  sockfd = minus_one;
  read_pipe = minus_one;
  write_pipe = minus_one;
  client_ip = none;
  port = 0;
}

-- The loop of findClient: the first slot whose client has the process id.
pub find_slot : ℕ → ℕ → Slots → Run (Option Client)
find_slot zero pid xs = ok none
find_slot (suc n) pid [] = fault
find_slot (suc n) pid (none ∷ xs) = find_slot n pid xs
find_slot (suc n) pid (some c ∷ xs) =
    let rest = find_slot n pid xs in if c.pid == pid then ok (some c) else rest

-- FIND_CLIENT_SUCCESS with *ppClient is `some`, FIND_CLIENT_NOT_FOUND is `none`.
unfoldable pub find_client : ℕ → State → Run (Option Client)
unfolding find_slot
find_client pid s = find_slot s.clients_ar_size pid (slots s)

-- The loop of addClient: the table with the client in its first NULL slot, or `none` with no such.
pub fill_slot : ℕ → Client → Slots → Run (Option Slots)
fill_slot zero c xs = ok none
fill_slot (suc n) c [] = fault
fill_slot (suc n) c (none ∷ xs) = ok (some (some c ∷ xs))
fill_slot (suc n) c (some d ∷ xs) = do
  r ← fill_slot n c xs
  ok (elim r [ none ↦ none | some ys ↦ some (some d ∷ ys) ])

abbrev pub inc : ℤ → ℤ
inc (pos n) = pos (n + 1)
inc (negsuc zero) = pos 0
inc (negsuc (suc n)) = negsuc n

abbrev pub dec : ℤ → ℤ
dec (pos zero) = negsuc 0
dec (pos (suc n)) = pos n
dec (negsuc n) = negsuc (suc n)

-- g_context->curClientCounts = f(g_context->curClientCounts).
unfoldable pub count_clients : (ℤ → ℤ) → State → Run State
count_clients f s = elim s.context [
  | none ↦ fault
  | some c ↦
      ok (record s { context = some (record c { cur_client_counts = f c.cur_client_counts }) })
]

-- addClient up to curClientCounts++: the client is in its slot.
unfoldable pub enter_client : Client → State → Run State
unfolding fill_slot append_client
enter_client c s = do
  filled ← fill_slot s.clients_ar_size c (slots s)
  elim filled [
    | some xs ↦ ok (record s { clients = some xs })
    | none ↦ do
      grown ← append_client s
      xs ← store (slots grown) s.clients_ar_size (some c)
      ok (record grown { clients = some xs })
  ]

-- addClient; the argument is the client that is copied.
unfoldable pub add_client : Option Client → State → Run State
unfolding enter_client count_clients
add_client none s = ok s
add_client (some c) s = do t ← enter_client c s; count_clients inc t

-- The loop of closeClient: the client that is taken out, and the table without it.
pub clear_slot : ℕ → ℕ → Slots → Run (Option (Client × Slots))
clear_slot zero pid xs = ok none
clear_slot (suc n) pid [] = fault
clear_slot (suc n) pid (x ∷ xs) =
    let rest : Run (Option (Client × Slots)) = do
      r ← clear_slot n pid xs
      ok (elim r [ none ↦ none | some (c, ys) ↦ some (c, x ∷ ys) ])
    in elim x [ none ↦ rest | some c ↦ if c.pid == pid then ok (some (c, none ∷ xs)) else rest ]

unfoldable pub close_client : ℕ → State → Run (List Action × State)
unfolding clear_slot count_clients
close_client pid s = do
  r ← clear_slot s.clients_ar_size pid (slots s)
  elim r [
    | none ↦ ok ([], s)
    | some (c, xs) ↦ do
      t ← count_clients dec (record s { clients = some xs })
      ok (release_client (some c), t)
  ]

-- The loop of closeAllClient: the calls made and the slots left behind.
pub clear_slots : ℕ → Slots → Run (List Action × Slots)
clear_slots zero xs = ok ([], xs)
clear_slots (suc n) [] = fault
clear_slots (suc n) (c ∷ xs) = do r ← clear_slots n xs; ok (release_client c ++ r.0, none ∷ r.1)

unfoldable pub close_all_client : State → Run (List Action × State)
unfolding clear_slots
close_all_client s = do
  r ← clear_slots s.clients_ar_size (slots s)
  ok (r.0, elim s.clients [ none ↦ s | some xs ↦ record s { clients = some (r.1) } ])

-- The loop of getCurrentClientCounts, which ends at the first NULL and tests no bound.
pub count_leading : Slots → Run ℕ
count_leading [] = fault
count_leading (none ∷ xs) = ok 0
count_leading (some c ∷ xs) = do n ← count_leading xs; ok (n + 1)

unfoldable pub get_current_client_counts : State → Run ℕ
unfolding count_leading
get_current_client_counts s = elim s.clients [ none ↦ ok 0 | some xs ↦ count_leading xs ]
