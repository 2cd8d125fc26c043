-- ===== src/Context/Signals.antt =====
-- tg_context.c: the messages to the client processes and the list of the clients.
-- What write returns is an argument: -1 or the number of bytes, by the descriptor.
pub mod Lists
mod Tests
use tgserver.Base.{
  ℕ, zero, suc, ◌+◌, ◌*◌, ◌/◌, ◌%◌, Bool, true, false, List, [], ◌∷◌, ◌++◌, Option, none, some, ltb,
  ◌==◌, if◌then◌else◌, length, ℤ, pos, negsuc, minus_one, is_nonneg, Run, ok, fault, ◌>>=◌, Bytes,
}
use tgserver.Context.{Client, Slots, State, Action, write_fd, slots}

abbrev pub is_minus_one : ℤ → Bool
is_minus_one (pos n) = false
is_minus_one (negsuc n) = n == 0

-- One more error where the code is not 0.
abbrev errors : ℤ → ℕ → ℕ
errors (pos zero) n = n
errors _ n = n + 1

module _ (written : ℤ → ℤ) where
  -- sendSignalToClient: the call of write, and the return code.
  pub send_signal_to_client : Option Client → Option Bytes → List Action × ℤ
  send_signal_to_client none msg = ([], minus_one)
  send_signal_to_client (some c) none = ([], minus_one)
  send_signal_to_client (some c) (some msg) =
      if is_nonneg c.write_pipe
      then (
        write_fd c.write_pipe msg ∷ [],
        if is_minus_one (written c.write_pipe) then minus_one else pos 0,
      )
      else ([], minus_one)

  -- The loop of sendSignalToAllClients: the calls, and errCount.
  signal_slots : ℕ → Option Bytes → Slots → Run (List Action × ℕ)
  unfolding send_signal_to_client
  signal_slots zero msg xs = ok ([], 0)
  signal_slots (suc n) msg [] = fault
  signal_slots (suc n) msg (none ∷ xs) = signal_slots n msg xs
  signal_slots (suc n) msg (some c ∷ xs) = do
    rest ← signal_slots n msg xs
    let sent = send_signal_to_client (some c) msg
    ok (sent.0 ++ rest.0, errors sent.1 rest.1)

  unfoldable pub send_signal_to_all_clients : Option Bytes → State → Run (List Action × ℕ)
  unfolding signal_slots
  send_signal_to_all_clients msg s = signal_slots s.clients_ar_size msg (slots s)

-- What sprintf gives for %d: the decimal digits, of which an int has ten at most.
abbrev pub digits : ℕ → ℕ → Bytes
digits zero n = []
digits (suc fuel) n =
    let rest = digits fuel (n / 10) in
    if ltb n 10 then (b'0' + n) ∷ [] else rest ++ (b'0' + n % 10) ∷ []

abbrev pub decimal : ℕ → Bytes
decimal n = digits 10 n

-- The line of a client, "%d\t\t%s\t\t%d\r\n". To print the address NULL is undefined.
abbrev pub info_line : Client → Run Bytes
info_line c = elim c.client_ip [
  | none ↦ fault
  | some ip ↦ ok (decimal c.pid ++ (9 ∷ 9 ∷ ip ++ (9 ∷ 9 ∷ (decimal c.port ++ 13 ∷ 10 ∷ []))))
]

-- sprintf writes the line and its NUL into an array of 50 bytes.
abbrev pub fits_line : Bytes → Run Bytes
fits_line line = if ltb (length line) 50 then ok line else fault

-- The loop of getCurrentClientsInfo: what is written into pData, from the byte `pos` on, whose size
-- is `room`.
info_slots : ℕ → ℕ → ℕ → Slots → Run Bytes
info_slots room zero at xs = ok []
info_slots room (suc n) at [] = fault
info_slots room (suc n) at (none ∷ xs) = info_slots room n at xs
info_slots room (suc n) at (some c ∷ xs) = do
  printed ← info_line c
  line ← fits_line printed
  rest ← info_slots room n (at + length line) xs
  if ltb room (at + length line) then fault else ok (line ++ rest)

-- The bytes in front of the zeros to which pData was cleared.
unfoldable pub get_current_clients_info : State → Run Bytes
unfolding info_slots
get_current_clients_info s = info_slots (50 * s.clients_ar_size) s.clients_ar_size 0 (slots s)
