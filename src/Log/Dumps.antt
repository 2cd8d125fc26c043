-- ===== src/Log/Dumps.antt =====
-- tg_log.c: the dump of memory can be read back.
use tgserver.Base.{
  ℕ, suc, ◌+◌, ◌-◌, ◌*◌, ◌/◌, ◌%◌, ◌<◌, ◌≡◌, refl, ap, ◌∙◌, inl, inr, [], ◌∷◌, ◌++◌, ok, Bytes, All,
  length, ltb, ◌==◌, if◌then◌else◌, memcpy-length, arith, Bool-cases,
}
use tgserver.Log.{hex_digit, dump, log_m}

abbrev digit_value : ℕ → ℕ
digit_value c = if ltb c 58 then c - 48 else c - 87

-- Reads a dump: spaces are skipped, the end of the line ends it, and two digits are a byte.
unfoldable pub read_dump : Bytes → Bytes
read_dump [] = []
read_dump (h ∷ []) = []
read_dump (h ∷ l ∷ rest) =
    let skipped = read_dump (l ∷ rest) in
    let others = read_dump rest in
    if h == 32 then skipped else (digit_value h * 16 + digit_value l) ∷ others

abbrev IsByte : ℕ → Type 0
IsByte b = b < 256

read_byte :
    (b : ℕ) (rest : Bytes)
    → IsByte b
    → read_dump (hex_digit (b / 16) ∷ hex_digit (b % 16) ∷ rest) ≡ b ∷ read_dump rest
unfolding read_dump
read_byte b rest h = ground arith

read_dump-space : (d : Bytes) → 0 < length d → read_dump (32 ∷ d) ≡ read_dump d
unfolding read_dump
read_dump-space [] h = absurd (omega arith)
read_dump-space (x ∷ d) h = refl

dump-length : (i : ℕ) (bytes : Bytes) → 0 < length (dump i bytes)
unfolding dump
dump-length i [] = omega arith
dump-length i (b ∷ bytes) = omega arith

read_dump-dump : (i : ℕ) (bytes : Bytes) → All IsByte bytes → read_dump (dump i bytes) ≡ bytes
unfolding dump read_dump
read_dump-dump i [] h = refl
read_dump-dump i (b ∷ bytes) h = elim (Bool-cases (i % 4 == 0)) [
  | inl e ↦ rw e (
      read_byte b (32 ∷ dump (suc i) bytes) h.0
      ∙ ap (◌∷◌ b) (
          read_dump-space (dump (suc i) bytes) (dump-length (suc i) bytes)
          ∙ read_dump-dump (suc i) bytes h.1))
  | inr e ↦
      rw e (read_byte b (dump (suc i) bytes) h.0 ∙ ap (◌∷◌ b) (read_dump-dump (suc i) bytes h.1))
]

-- The dump of `size` bytes of memory shows exactly these: to read its digits, past the spaces,
-- gives them back.
pub log_m-read_dump :
    (bytes behind : Bytes)
    → All IsByte bytes
    → (printed : Bytes) × (log_m (bytes ++ behind) (length bytes) ≡ ok printed)
      × (read_dump printed ≡ bytes)
unfolding log_m
log_m-read_dump bytes behind h =
    (dump 0 bytes, rw (memcpy-length bytes behind), read_dump-dump 0 bytes h)
