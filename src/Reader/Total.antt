-- ===== src/Reader/Total.antt =====
-- tg_process_reader.c: read_data_from_cli always has an outcome, and which outcomes there are; the
-- messages of the main process.
use tgserver.Base.{
  sizes, ℕ, zero, suc, ◌+◌, ◌-◌, ◌<◌, ◌≡◌, refl, ◌⊎◌, inl, inr, true, false, [], ◌∷◌, ◌++◌, Option,
  none, some, ap, ◌==◌, ==_iff, fault, int_max, le_value, to_int, ltb, leb, if◌then◌else◌, length,
  take, drop, ℤ, pos, negsuc, is_nonneg, Run, ok, Bool-cases, Bytes, le→ltb, arith,
}
use tgserver.Context.{Client}
use tgserver.Reader.Inputs.{positive-ne-zero}
use tgserver.Reader.{
  Input, chunk, failed, Stream, read_fd, Outcome, requests, quits, refused, fill_buffer,
  read_request, decode_request, read_data_from_cli, too_short, msg_type_data_length_error,
}

abbrev pub length_error : Stream → Outcome
length_error s = record {
  code = pos 1;
  type_id = some (pos msg_type_data_length_error);
  payload = none;
  rest = s;
}

-- The outcomes for a client with a socket: a quit or a request with code 0, a wrong length with
-- code 1.
pub data Answers : Outcome → Type 0 where
  quit : (s : Stream) → Answers (quits s)
  request : (memory : Bytes) (s : Stream) → Answers (requests memory s)
  wrong_length : (s : Stream) → Answers (length_error s)

abbrev pub Ends : Run Outcome → Type 0
Ends r = (o : Outcome) × (r ≡ ok o) × Answers o

-- The length in the first four bytes of a read is the greatest int.
abbrev pub Greatest : Bytes → Type 0
Greatest got =
    (b0 : ℕ) × (b1 : ℕ) × (b2 : ℕ) × (b3 : ℕ) × (body : Bytes) × (got ≡ b0 ∷ b1 ∷ b2 ∷ b3 ∷ body)
    × (to_int (le_value b0 b1 b2 b3) ≡ pos int_max)

-- An outcome, or a fault where the length overflows.
abbrev pub EndsOver : Type 0 → Run Outcome → Type 0
EndsOver overflow r = Ends r ⊎ (overflow × (r ≡ fault))

abbrev Enough : ℕ → ℕ → Stream → Type 0
Enough fuel left s = (length s < fuel) ⊎ ((left ≡ 0) × (0 < fuel))

fewer :
    (fuel left : ℕ) (i : Input) (s : Stream)
    → Enough (suc fuel) (suc left) (i ∷ s)
    → length s < fuel
fewer fuel left i s (inl h) = omega arith
fewer fuel left i s (inr h) = absurd (omega arith)

leb_zero : (n : ℕ) → leb 0 n ≡ true
leb_zero n = ground arith

-- What a read that fills its room leaves to be read is nothing.
took_all :
    (left : ℕ) (b : Bytes)
    → leb (suc (length b)) (suc left) ≡ false
    → left - length (take left b) ≡ 0
took_all left b e = let longer : left < length b = ground arith in omega sizes

fill_buffer-Ends :
    (fuel left : ℕ) (filled : Bytes) (s : Stream)
    → Enough fuel left s
    → Ends (fill_buffer fuel left filled s)
unfolding fill_buffer read_fd
fill_buffer-Ends zero left filled s h = absurd (omega arith)
fill_buffer-Ends (suc fuel) zero filled s h = (_, refl, request _ s)
fill_buffer-Ends (suc fuel) (suc left) filled [] h = (_, refl, quit [])
fill_buffer-Ends (suc fuel) (suc left) filled (failed ∷ s) h = (_, refl, quit s)
fill_buffer-Ends (suc fuel) (suc left) filled (chunk [] ∷ s) h =
    rw (leb_zero (suc left)) (_, refl, quit s)
fill_buffer-Ends (suc fuel) (suc left) filled (chunk (x ∷ b) ∷ s) h =
    elim (Bool-cases (leb (suc (length b)) (suc left))) [
      | inl e ↦ rw e (
          rw (positive-ne-zero (suc (length b)) (omega arith)) (
            fill_buffer-Ends fuel (suc left - suc (length b)) (filled ++ x ∷ b) s
              (inl (fewer fuel left (chunk (x ∷ b)) s h))))
      | inr e ↦ rw e (
          rw (positive-ne-zero (suc left) (omega arith)) (
            fill_buffer-Ends fuel (suc left - suc (length (take left b)))
              (filled ++ x ∷ take left b) (chunk (drop left b) ∷ s)
              (inr (
                omega (arith, took_all left b e),
                omega (arith, fewer fuel left (chunk (x ∷ b)) s h),
              ))))
    ]

read_request-Ends :
    (fuel behind : ℕ) (size : ℤ) (body : Bytes) (s : Stream)
    → length s < fuel
    → EndsOver (size ≡ pos int_max) (read_request fuel behind size body s)
unfolding read_request
read_request-Ends fuel behind (negsuc n) body s h = inl (_, refl, wrong_length s)
read_request-Ends fuel behind (pos zero) body s h = inl (_, refl, wrong_length s)
read_request-Ends fuel behind (pos (suc n)) body s h = elim (Bool-cases (suc n == int_max)) [
  | inl k ↦ inr (ap pos ((==_iff (suc n) int_max).0 k), rw k refl)
  | inr k ↦ rw k (
      inl (elim (Bool-cases (ltb (length body) (suc n))) [
        | inl e ↦ rw e (fill_buffer-Ends fuel (suc n - length body) body s (inl h))
        | inr e ↦ rw e (_, refl, request _ s)
      ]))
]

decode_request-Ends :
    (fuel behind : ℕ) (got : Bytes) (s : Stream)
    → ltb (length got) 4 ≡ false
    → length s < fuel
    → EndsOver (Greatest got) (decode_request fuel behind got s)
unfolding decode_request
decode_request-Ends fuel behind (b0 ∷ b1 ∷ b2 ∷ b3 ∷ body) s l h =
    elim (read_request-Ends fuel behind (to_int (le_value b0 b1 b2 b3)) body s h) [
      | inl e ↦ inl e
      | inr (k, e) ↦ inr ((b0, b1, b2, b3, body, refl, k), e)
    ]
decode_request-Ends fuel behind _ s l h = cc

-- What the call does behind its guard.
abbrev first_read : ℕ → ℕ → Stream → Run Outcome
first_read fuel behind s =
    let r = read_fd 255 s in
    if too_short r.count then ok (quits r.rest) else decode_request fuel behind r.bytes r.rest

full_read : (b : Bytes) → leb (length b) 255 ≡ false → ltb (length (take 255 b)) 4 ≡ false
full_read b e =
    let longer : 255 < length b = ground arith in le→ltb 4 (length (take 255 b)) (omega sizes)

first_read-Ends :
    (fuel behind : ℕ) (s : Stream)
    → length s + 1 < fuel
    → EndsOver (Greatest ((read_fd 255 s).bytes)) (first_read fuel behind s)
unfolding read_fd
first_read-Ends fuel behind [] h = inl (_, refl, quit [])
first_read-Ends fuel behind (failed ∷ s) h = inl (_, refl, quit s)
first_read-Ends fuel behind (chunk b ∷ s) h = elim (Bool-cases (leb (length b) 255)) [
  | inl e ↦ rw e (elim (Bool-cases (ltb (length b) 4)) [
    | inl few ↦ rw few (inl (_, refl, quit s))
    | inr header ↦ rw header (decode_request-Ends fuel behind b s header (omega arith))
  ])
  | inr e ↦ rw e (
      decode_request-Ends fuel behind (take 255 b) (chunk (drop 255 b) ∷ s) (full_read b e)
        (omega arith))
]

-- The outcomes of the whole call: a client that is NULL or has no socket is refused.
abbrev pub Replies : Option Client → Stream → Run Outcome → Type 0
Replies none s r = r ≡ ok (refused s)
Replies (some c) s r =
    if is_nonneg c.sockfd then EndsOver (Greatest ((read_fd 255 s).bytes)) r else r ≡ ok (refused s)

-- On more fuel than inputs, read_data_from_cli ends without a fault whatever the reads deliver,
-- unless the first read begins with the length 2 ^ 31 - 1: it refuses a client that is NULL or has
-- no socket with code -1 and reads nothing; else the event is a quit or a request with code 0, or
-- a wrong length with code 1. Where it faults, the length is 2 ^ 31 - 1, so that size+1 overflows.
pub read_data_from_cli-Replies :
    (fuel behind : ℕ) (client : Option Client) (s : Stream)
    → length s + 1 < fuel
    → Replies client s (read_data_from_cli fuel behind client s)
unfolding read_data_from_cli read_fd
read_data_from_cli-Replies fuel behind none s h = refl
read_data_from_cli-Replies fuel behind (some c) s h = elim (Bool-cases (is_nonneg c.sockfd)) [
  | inl e ↦ rw e (first_read-Ends fuel behind s h)
  | inr e ↦ rw e refl
]
