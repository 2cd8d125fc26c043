-- ===== src/Response.antt =====
-- tg_process_response.c: what the client process does with an event. The functions of the plugins
-- are code of others: `do_request` gives for a plugin and the memory of a request the memory that
-- it returns, none for NULL, or the fault that it runs into. `array` is the place of the name that
-- __check_request copies (no NUL ends the copy), `stack` the memory that findSeparator may look at. The values that write returns are only logged.
pub mod Requests
pub mod Outcomes
pub mod Contracts
mod Tests
pub use tgserver.Base.{codes, Run, ok}
use tgserver.Base.{
  ℕ, zero, suc, ◌+◌, ◌-◌, ◌*◌, ◌/◌, Bool, true, false, ◌||◌, ◌&&◌, List, [], ◌∷◌, ◌++◌, map, Option,
  none, some, ltb, leb, ◌==◌, if◌then◌else◌, length, take, drop, get_elem?, ℤ, pos, negsuc,
  minus_one, Run, ok, fault, ◌>>=◌, Bytes, strncmp_eq, string_at, with_nul, le_value, to_int,
  le_bytes, memcpy,
}
use tgserver.Context.{Client, State, Action, write_fd, destroy_client, release}
use tgserver.Service.{
  Service, Services, Call, find_service_n, init_all_services, release_all_services,
}
use tgserver.Util.{find_separator}

-- HEADER.
abbrev pub header : Bytes
header = codes "tg://"

-- g_handle_response_msg: the numbers 2000 to 2007.
abbrev pub response_messages : List Bytes
response_messages =
    codes "tg://2000/"
    ∷ codes "tg://2001/"
    ∷ codes "tg://2002/"
    ∷ codes "tg://2003/"
    ∷ codes "tg://2004/"
    ∷ codes "tg://2005/"
    ∷ codes "tg://2006/"
    ∷ codes "tg://2007/"
    ∷ []

abbrev pub response_base : ℕ
response_base = 2000

-- What a handler does: calls on descriptors and calls of plugins.
pub data Effect : Type 0 where
  act : Action → Effect
  call : Call → Effect

-- A handler returns a number, or the process exits with status 0.
pub data After : Type 0 where
  returns : ℤ → After
  exits : After

pub record Handled : Type 0 where
  pub effects : List Effect
  pub after : After

-- The fields of an event that the handlers read.
pub record Request : Type 0 where
  pub type_id : ℤ
  pub payload : Option Bytes

-- CHECK_EVENT fails.
abbrev pub bad_type : ℤ → Bool
bad_type (pos t) = ltb 1050 t || ltb t 1000
bad_type (negsuc t) = true

-- type - MSG_TYPE_BASE, for a type that the check lets through.
abbrev type_index : ℤ → ℕ
type_index (pos t) = t - 1000
type_index (negsuc t) = 0

-- SEND for one of the RESPONSE_ numbers, all of which lie below RESPONSE_MAX.
send : Client → ℕ → Run Effect
send c id = elim (get_elem? response_messages (id - response_base)) [
  | none ↦ fault
  | some m ↦ ok (act (write_fd c.sockfd m))
]

-- __check_request: 0 with the service, 1 or -1.
pub data Checked : Type 0 where
  accepted : Service → Checked
  illegal not_found : Checked

-- The array `name` of __check_request, which is declared for five bytes less than the name that is
-- copied into it: `reserved n` is the number of bytes that the compiler keeps on the stack for an
-- array of n bytes, n in C itself, more where it aligns the stack; `behind` is what stands behind
-- the copied bytes.
pub record NameArray : Type 0 where
  pub reserved : ℕ → ℕ
  pub behind : Bytes

-- A 0 stands behind the copied name.
abbrev pub zeroed : (ℕ → ℕ) → NameArray
zeroed reserved = record { reserved = reserved; behind = 0 ∷ [] }

-- Whole blocks of 16 bytes, as gcc keeps them on x86-64.
abbrev pub aligned : ℕ → ℕ
aligned n = (n + 15) / 16 * 16

module _ (stack : Bytes) (array : NameArray) where
  -- The part behind the header, of which the string is `source`, up to the next "/". The size of
  -- the array has to be positive, and what is kept for it as long as the copy.
  check_name : Services → Bytes → ℤ → Run Checked
  check_name s source (negsuc n) = ok illegal
  check_name s source (pos p) =
      let found = do
        r ← find_service_n (take p source ++ array.behind) s
        ok (elim r [ none ↦ not_found | some q ↦ accepted q ])
      in if ltb (length header) p && leb p (array.reserved (p - length header))
        then found
        else fault

  unfoldable pub check_request : Services → Bytes → Run Checked
  unfolding check_name
  check_request s memory = do
    same ← strncmp_eq (length header) memory (with_nul header)
    let named = (do
      source ← string_at (drop (length header) memory)
      p ← find_separator stack (some source) (some (b'/' ∷ []))
      check_name s source p)
    if same then named else ok illegal

-- The answer with the data that a plugin returned, whose length is in its first four bytes.
reply_sized : Client → Bytes → ℤ → Run (List Effect)
unfolding send
reply_sized c rest (negsuc n) = do e ← send c 2006; ok (e ∷ [])
reply_sized c rest (pos zero) = do e ← send c 2006; ok (e ∷ [])
reply_sized c rest (pos (suc n)) = do
  bytes ← memcpy (suc n) rest
  ok (
      act (write_fd c.sockfd (le_bytes (14 + suc n) ++ codes "tg://2000/"))
      ∷ act (write_fd c.sockfd bytes)
      ∷ [])

unfoldable pub reply : Client → Option Bytes → Run (List Effect)
unfolding reply_sized
reply c none = ok []
reply c (some (b0 ∷ b1 ∷ b2 ∷ b3 ∷ rest)) = reply_sized c rest (to_int (le_value b0 b1 b2 b3))
reply c (some _) = fault

module _ (do_request : ℕ → Bytes → Run (Option Bytes)) (stack : Bytes) (array : NameArray) where
  -- The three cases of the value of __check_request.
  answer_request : Client → Bytes → Checked → Run Handled
  unfolding send
  answer_request c memory (accepted p) = do
    data_returned ← do_request p.do_request memory
    es ← reply c data_returned
    ok (record { effects = es; after = returns (pos 0) })
  answer_request c memory illegal = do
    e ← send c 2002
    ok (record { effects = e ∷ []; after = returns (pos 1) })
  answer_request c memory not_found = do
    e ← send c 2004
    ok (record { effects = e ∷ []; after = returns minus_one })

  unfoldable pub handle_response_client_request : Services → Client → Request → Run Handled
  unfolding answer_request
  handle_response_client_request s c ev =
      if bad_type ev.type_id
      then ok (record { effects = []; after = returns minus_one })
      else elim ev.payload [
        | none ↦ fault
        | some memory ↦ (check_request stack array s memory >>= answer_request c memory)
      ]

-- The process releases the plugins, closes its client and its context, and exits.
unfoldable pub handle_response_client_quit : Services → State → Client → Run Handled
handle_response_client_quit s g c = do
  calls ← release_all_services s
  r ← release g
  ok (record {
    effects = map call calls ++ (map act (destroy_client (some c)) ++ map act r.0);
    after = exits;
  })

unfoldable pub handle_response_data_length_error : Client → Run Handled
unfolding send
handle_response_data_length_error c = do
  e ← send c 2001
  ok (record { effects = e ∷ []; after = returns (pos 0) })

-- The two handlers that tell the client why the connection ends, and then exit.
farewell : ℕ → State → Client → Run Handled
unfolding send
farewell id g c = do
  e ← send c id
  r ← release g
  ok (record { effects = e ∷ (map act (destroy_client (some c)) ++ map act r.0); after = exits })

unfoldable pub handle_response_server_shut_down : State → Client → Run Handled
unfolding farewell
handle_response_server_shut_down g c = farewell 2003 g c

unfoldable pub handle_response_client_conn_closed_by_admin : State → Client → Run Handled
unfolding farewell
handle_response_client_conn_closed_by_admin g c = farewell 2007 g c

unfoldable pub handle_response_client_init : Services → Run Handled
handle_response_client_init s = do
  calls ← init_all_services s
  ok (record { effects = map call calls; after = returns (pos 0) })

module _ (do_request : ℕ → Bytes → Run (Option Bytes)) (stack : Bytes) (array : NameArray) where
  -- g_handle_response_fp[i], an array of six functions.
  handler : ℕ → Services → State → Client → Request → Run Handled
  handler i s g c ev =
      if i == 0
      then handle_response_client_quit s g c
      else if i == 1
      then handle_response_client_request do_request stack array s c ev
      else if i == 2
      then handle_response_data_length_error c
      else if i == 3
      then handle_response_server_shut_down g c
      else if i == 4
      then handle_response_client_init s
      else if i == 5
      then handle_response_client_conn_closed_by_admin g c
      else fault

  unfoldable pub handle_response : Services → State → Client → Option Request → Run Handled
  unfolding handler
  handle_response s g c none = ok (record { effects = []; after = returns minus_one })
  handle_response s g c (some ev) =
      if bad_type ev.type_id
      then ok (record { effects = []; after = returns minus_one })
      else handler (type_index ev.type_id) s g c ev
