-- ===== src/Reader.antt =====
-- tg_process_reader.c: reading a request from the client's socket and a message from the main
-- process. What a descriptor delivers is a stream of inputs, one for each read that finds data: the
-- end of the list is the end of the file. The loop that reads the rest of a request is on fuel,
-- with a fault where that runs out (Reader.Frames has that one round more than the inputs is
-- enough).
pub mod Inputs
pub mod Frames
pub mod Outcomes
pub mod Total
pub mod Messages
mod Tests
use tgserver.Base.{
  ℕ, zero, suc, ◌+◌, ◌-◌, Bool, true, false, ◌||◌, List, [], ◌∷◌, ◌++◌, Option, none, some, ltb,
  leb, ◌==◌, if◌then◌else◌, length, take, drop, replicate, ℤ, pos, negsuc, minus_one, is_nonneg,
  Run, ok, fault, ◌>>=◌, Bytes, int_max, le_value, to_int, strncpy, atoi, with_nul,
}
use tgserver.Context.{Client}

-- The message types of tg_process_response.h.
abbrev pub msg_type_base : ℕ
msg_type_base = 1000

abbrev pub msg_type_client_quit : ℕ
msg_type_client_quit = 1000

abbrev pub msg_type_client_request : ℕ
msg_type_client_request = 1001

abbrev pub msg_type_data_length_error : ℕ
msg_type_data_length_error = 1002

abbrev pub msg_type_max : ℕ
msg_type_max = 1050

-- One read finds bytes, of which it takes as many as it has room for, or an error.
pub data Input : Type 0 where
  chunk : Bytes → Input
  failed : Input

abbrev pub Stream : Type 0
Stream = List Input

-- The value of read, the bytes that it stored and the stream behind it.
pub record Received : Type 0 where
  pub count : ℤ
  pub bytes : Bytes
  pub rest : Stream

unfoldable pub read_fd : ℕ → Stream → Received
read_fd room [] = record { count = pos 0; bytes = []; rest = [] }
read_fd room (failed ∷ rest) = record { count = minus_one; bytes = []; rest = rest }
read_fd room (chunk b ∷ rest) =
    if leb (length b) room
    then record { count = pos (length b); bytes = b; rest = rest }
    else record { count = pos room; bytes = take room b; rest = chunk (drop room b) ∷ rest }

-- The value returned, what was stored in *pType and *ppData (nothing is `none`; the data is the
-- memory of the buffer), and the stream behind the call.
pub record Outcome : Type 0 where
  pub code : ℤ
  pub type_id : Option ℤ
  pub payload : Option Bytes
  pub rest : Stream

-- n == 0 || n == -1
abbrev ended : ℤ → Bool
ended (pos n) = n == 0
ended (negsuc n) = n == 0

-- n == 0 || n == -1 || n < 4
abbrev too_short : ℤ → Bool
too_short (pos n) = ltb n 4
too_short (negsuc n) = true

-- L_EXIT.
abbrev pub quits : Stream → Outcome
quits rest = record {
  code = pos 0;
  type_id = some (pos msg_type_client_quit);
  payload = none;
  rest = rest;
}

-- A request whose buffer has been filled.
abbrev pub requests : Bytes → Stream → Outcome
requests memory rest = record {
  code = pos 0;
  type_id = some (pos msg_type_client_request);
  payload = some memory;
  rest = rest;
}

-- The loop `while(lastLen>0)`: fuel, lastLen, and the bytes in the buffer so far. The buffer was
-- cleared, so that a NUL stands behind the request.
pub fill_buffer : ℕ → ℕ → Bytes → Stream → Run Outcome
fill_buffer zero last_len filled s = fault
fill_buffer (suc fuel) zero filled s = ok (requests (with_nul filled) s)
fill_buffer (suc fuel) (suc left) filled s =
    let r = read_fd (suc left) s in
    let more = fill_buffer fuel (suc left - length r.bytes) (filled ++ r.bytes) r.rest in
    if ended r.count then ok (quits r.rest) else more

-- The else branch: the first read holds the four bytes of the length and `body`. `behind` is the
-- byte that malloc left behind the request, where the memset of size bytes does not reach. For the
-- greatest int, size+1 overflows.
pub read_request : ℕ → ℕ → ℤ → Bytes → Stream → Run Outcome
unfolding fill_buffer
read_request fuel behind (negsuc n) body s = ok (record {
  code = pos 1;
  type_id = some (pos msg_type_data_length_error);
  payload = none;
  rest = s;
})
read_request fuel behind (pos zero) body s = ok (record {
  code = pos 1;
  type_id = some (pos msg_type_data_length_error);
  payload = none;
  rest = s;
})
read_request fuel behind (pos (suc n)) body s =
    let size = suc n in
    let more = fill_buffer fuel (size - length body) body s in
    if size == int_max
    then fault
    else if ltb (length body) size
    then more
    else ok (requests (take size body ++ behind ∷ []) s)

-- The four bytes of the length.
pub decode_request : ℕ → ℕ → Bytes → Stream → Run Outcome
unfolding read_request
decode_request fuel behind (b0 ∷ b1 ∷ b2 ∷ b3 ∷ body) s =
    read_request fuel behind (to_int (le_value b0 b1 b2 b3)) body s
decode_request _ _ _ _ = fault

abbrev pub refused : Stream → Outcome
refused s = record { code = minus_one; type_id = none; payload = none; rest = s }

unfoldable pub read_data_from_cli : ℕ → ℕ → Option Client → Stream → Run Outcome
unfolding decode_request read_fd
read_data_from_cli fuel behind none s = ok (refused s)
read_data_from_cli fuel behind (some c) s =
    let r = read_fd 255 s in
    if is_nonneg c.sockfd
    then if too_short r.count then ok (quits r.rest) else decode_request fuel behind r.bytes r.rest
    else ok (refused s)

abbrev out_of_range : ℤ → Bool
out_of_range (pos n) = ltb n msg_type_base || ltb msg_type_max n
out_of_range (negsuc n) = true

-- The number of a message "tg://id/": four bytes are copied into an array of four, so that atoi
-- reads on in the memory `stack` behind the array.
pub message_id : Bytes → Bytes → Run ℤ
message_id stack buf = do digits ← strncpy 4 (drop 5 buf); atoi (digits ++ stack)

unfoldable pub read_data_from_main_process : Bytes → Option Client → Stream → Run Outcome
unfolding read_fd message_id
read_data_from_main_process stack none s = ok (refused s)
read_data_from_main_process stack (some c) s =
    let r = read_fd 255 s in
    let buf = r.bytes ++ replicate (255 - length r.bytes) 0 in
    if is_nonneg c.read_pipe
    then if ended r.count
      then ok (refused r.rest)
      else (message_id stack buf >>= λ id. ok (record {
        code = if out_of_range id then pos 1 else pos 0;
        type_id = some id;
        payload = none;
        rest = r.rest;
      }))
    else ok (refused s)
