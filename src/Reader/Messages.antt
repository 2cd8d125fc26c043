-- ===== src/Reader/Messages.antt =====
-- tg_process_reader.c: the messages "tg://id/" of the main process.
use tgserver.Base.{
  ℕ, suc, ◌+◌, ◌-◌, ◌*◌, ◌≤◌, ◌≡◌, refl, ap, ◌∙◌, Bool, true, false, ℤ, [], ◌∷◌, none, some, ltb,
  leb, fault, as_int, ◌==◌, if◌then◌else◌, length, pos, ok, ◌>>=◌, Bytes, arith, atoi, digits_value,
  strncpy, is_digit, is_space,
}
use tgserver.Context.{Client}
use tgserver.Reader.Inputs.{positive-ne-zero}
use tgserver.Reader.{
  chunk, Stream, Outcome, read_fd, message_id, read_data_from_main_process, out_of_range,
}

digit-not_space : (d : ℕ) → is_digit d ≡ true → is_space d ≡ false
digit-not_space d h = ground arith

digit-not_minus : (d : ℕ) → is_digit d ≡ true → (d == b'-') ≡ false
digit-not_minus d h = ground arith

digit-not_plus : (d : ℕ) → is_digit d ≡ true → (d == b'+') ≡ false
digit-not_plus d h = ground arith

digits_value-cons :
    (acc d : ℕ) (s : Bytes)
    → is_digit d ≡ true
    → digits_value acc (d ∷ s) ≡ digits_value (acc * 10 + (d - b'0')) s
unfolding digits_value
digits_value-cons acc d s h = rw h

module _ (d1 d2 d3 d4 : ℕ) (h1 : is_digit d1 ≡ true) (h2 : is_digit d2 ≡ true)
    (h3 : is_digit d3 ≡ true) (h4 : is_digit d4 ≡ true) where
  -- The value of the four digits.
  abbrev four_digits : ℕ
  four_digits = (((d1 - b'0') * 10 + (d2 - b'0')) * 10 + (d3 - b'0')) * 10 + (d4 - b'0')

  strncpy_four : (s : Bytes) → strncpy 4 (d1 ∷ d2 ∷ d3 ∷ d4 ∷ s) ≡ ok (d1 ∷ d2 ∷ d3 ∷ d4 ∷ [])
  unfolding strncpy
  strncpy_four s = ground arith

  atoi_four : (s : Bytes) → atoi (d1 ∷ d2 ∷ d3 ∷ d4 ∷ s) ≡ (digits_value four_digits s >>= as_int)
  unfolding atoi
  atoi_four s = rw (digit-not_space d1 h1) (
      rw (digit-not_minus d1 h1) (
        rw (digit-not_plus d1 h1) (
          ap (λ v. v >>= as_int)
            (digits_value-cons 0 d1 (d2 ∷ d3 ∷ d4 ∷ s) h1
              ∙ digits_value-cons (0 + (d1 - b'0')) d2 (d3 ∷ d4 ∷ s) h2
              ∙ digits_value-cons _ d3 (d4 ∷ s) h3
              ∙ digits_value-cons _ d4 s h4
              ∙ ap (λ n. digits_value n s) (omega arith)))))

  -- The id of a message is given by its four digits and by all digits that stand behind the array
  -- of four bytes on the stack: no NUL stops atoi there. The call returns 1 for an id that is out
  -- of range, and else 0, and stores the id in both cases; a number that no int holds is undefined
  -- in C.
  pub read_data_from_main_process-digits :
      (fd id : ℕ) (client : Client) (rest stack : Bytes) (s : Stream)
      → client.read_pipe ≡ pos fd
      → length rest ≤ 246
      → digits_value four_digits stack ≡ ok id
      → read_data_from_main_process stack
          (some client)
          (chunk (b't' ∷ b'g' ∷ b':' ∷ b'/' ∷ b'/' ∷ d1 ∷ d2 ∷ d3 ∷ d4 ∷ rest) ∷ s)
        ≡ (if ltb id 2147483648
            then ok (record {
              code = if out_of_range (pos id) then pos 1 else pos 0;
              type_id = some (pos id);
              payload = none;
              rest = s;
            })
            else fault)
  unfolding read_data_from_main_process read_fd message_id
  read_data_from_main_process-digits fd id client rest stack s e l v = rw e (
      rw (fits (length rest) l) (
        rw
          (positive-ne-zero (suc (suc (suc (suc (suc (suc (suc (suc (suc (length rest))))))))))
            (omega arith))
          (rw (strncpy_four _) (rw (atoi_four stack) (rw v (in_int (ltb id 2147483648)))))))
    where
      stored : ℤ → Outcome
      stored n = record {
        code = if out_of_range n then pos 1 else pos 0;
        type_id = some n;
        payload = none;
        rest = s;
      }

      in_int :
          (b : Bool)
          → ((if b then ok (pos id) else fault) >>= λ n. ok (stored n))
            ≡ (if b then ok (stored (pos id)) else fault)
      in_int true = refl
      in_int false = refl

      fits :
          (n : ℕ) → n ≤ 246 → leb (suc (suc (suc (suc (suc (suc (suc (suc (suc n))))))))) 255 ≡ true
      fits n k = ground arith
