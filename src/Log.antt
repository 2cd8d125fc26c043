-- ===== src/Log.antt =====
-- tg_log.c: the lines of the log, and the dump of memory.
-- `env` is what getenv gives for LOG_LEVEL, `clock` the string of ctime, and `text` what vsnprintf
-- would print for the format and its arguments in a buffer without a bound.
pub mod Lines
pub mod Dumps
mod Tests
use tgserver.Base.{
  ℕ, zero, suc, ◌+◌, ◌-◌, ◌*◌, ◌/◌, ◌%◌, List, [], ◌∷◌, ◌++◌, Option, none, some, ltb, ◌==◌,
  if◌then◌else◌, take, ℤ, pos, negsuc, leb_int, Run, ok, fault, ◌>>=◌, Bytes, with_nul, atoi,
  memcpy, codes,
}

abbrev pub log_level_error : ℤ
log_level_error = pos 0

abbrev pub log_level_warning : ℤ
log_level_warning = pos 1

abbrev pub log_level_info : ℤ
log_level_info = pos 2

abbrev pub log_level_debug : ℤ
log_level_debug = pos 3

level_name : ℤ → Bytes
level_name (negsuc n) = codes " [INFO] "
level_name (pos n) =
    if n == 0
    then codes " [ERROR] "
    else if n == 1
    then codes " [WARNING] "
    else if n == 3
    then codes " [DEBUG] "
    else codes " [INFO] "

-- The level up to which lines are printed.
pub limit : Option Bytes → Run ℤ
limit none = ok log_level_warning
limit (some e) = atoi (with_nul e)

-- What stands in buf_head, an array of 100 bytes with the NUL.
pub head : Bytes → Bytes → ℤ → Bytes
unfolding level_name
head clock tag level =
    take 99 (take 24 clock ++ (b'[' ∷ tag ++ (b']' ∷ level_name level ++ codes "==>")))

module _ (env : Option Bytes) (clock : Bytes) where
  -- __log: the bytes printed.
  unfoldable pub log : Bytes → ℤ → Bytes → Run Bytes
  unfolding limit head
  log tag level msg = do
    l ← limit env
    ok (if leb_int level l then head clock tag level ++ (msg ++ 10 ∷ []) else [])

  -- The buffer of vsnprintf has 1024 bytes with the NUL.
  unfoldable pub log_n : Bytes → ℤ → Bytes → Run Bytes
  log_n tag level text = log tag level (take 1023 text)

  unfoldable pub log_d : Bytes → Bytes → Run Bytes
  log_d tag text = log tag log_level_debug (take 1023 text)

  unfoldable pub log_w : Bytes → Bytes → Run Bytes
  log_w tag text = log tag log_level_warning (take 1023 text)

  unfoldable pub log_i : Bytes → Bytes → Run Bytes
  log_i tag text = log tag log_level_info (take 1023 text)

  unfoldable pub log_e : Bytes → Bytes → Run Bytes
  log_e tag text = log tag log_level_error (take 1023 text)

-- A digit of %02x.
abbrev pub hex_digit : ℕ → ℕ
hex_digit d = if ltb d 10 then 48 + d else 87 + d

-- The loop of logM, from the index i.
unfoldable pub dump : ℕ → Bytes → Bytes
dump i [] = 10 ∷ []
dump i (b ∷ bytes) =
    let rest = dump (suc i) bytes in
    hex_digit (b / 16) ∷ hex_digit (b % 16) ∷ (if i % 4 == 0 then 32 ∷ rest else rest)

unfoldable pub log_m : Bytes → ℕ → Run Bytes
unfolding dump
log_m memory size = do bytes ← memcpy size memory; ok (dump 0 bytes)
