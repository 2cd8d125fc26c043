-- ===== src/Context/Globals.antt =====
-- tg_context.h: the client records, the server and context structures, and the global variables of
-- tg_context.c; the calls that the code makes on descriptors.
use tgserver.Base.{ℕ, List, Option, ℤ, Bytes}

-- TGClient. A process id and a port are never negative in what the program stores.
pub record Client : Type 0 where
  pub pid : ℕ
  pub sockfd : ℤ
  pub read_pipe : ℤ
  pub write_pipe : ℤ
  pub client_ip : Option Bytes
  pub port : ℕ

-- TGServer.
pub record Server : Type 0 where
  pub port : ℤ
  pub listen_ip : Option Bytes
  pub name : Option Bytes
  pub version : ℤ
  pub max_clients : ℤ

-- TGContext.
pub record Context : Type 0 where
  pub server : Option Server
  pub log_level : ℕ
  pub cur_client_counts : ℤ
  pub listenfd : ℤ
  pub local_admin_fd : ℤ

-- The memory behind g_clients, one pointer to a slot.
abbrev pub Slots : Type 0
Slots = List (Option Client)

-- The global variables g_clients, clients_ar_size and g_context.
pub record State : Type 0 where
  pub clients : Option Slots
  pub clients_ar_size : ℕ
  pub context : Option Context

-- The calls of the system on descriptors, in the order in which they are made.
pub data Action : Type 0 where
  shutdown_fd : ℤ → Action
  close_fd : ℤ → Action
  write_fd : ℤ → Bytes → Action

abbrev pub default_max_clients : ℕ
default_max_clients = 20

abbrev pub default_listen_port : ℕ
default_listen_port = 6666
