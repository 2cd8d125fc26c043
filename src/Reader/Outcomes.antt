-- ===== src/Reader/Outcomes.antt =====
-- tg_process_reader.c: the other outcomes of read_data_from_cli: lost requests, the end of the
-- connection, a bad length; and that it always has an outcome.
use tgserver.Base.{
  sizes, ℕ, zero, suc, ◌+◌, ◌-◌, ◌≤◌, ◌<◌, ◌≡◌, refl, sym, ap, subst, ◌∙◌, ◌⊎◌, true, List, [], ◌∷◌,
  ◌++◌, append_assoc, append-nil, none, some, leb, length, length-append, take-append, pos, ok,
  Bytes, int_max, le_value, to_int, le_value-le_bytes, to_int-small, le→ltb, lt→ltb, arith,
}
use tgserver.Context.{Client}
use tgserver.Reader.{
  chunk, Stream, read_fd, requests, quits, fill_buffer, read_request, decode_request,
  read_data_from_cli, msg_type_data_length_error,
}
use tgserver.Reader.Inputs.{chunks, NonEmpty, joined, read_fd-ReadsOnce, positive-ne-zero}
use tgserver.Reader.Frames.{frame, ne_int_max, decode_request-frame}

read_request_whole :
    (fuel behind : ℕ) (payload lost : Bytes) (s : Stream)
    → 0 < length payload
    → length payload < int_max
    → read_request fuel behind (pos (length payload)) (payload ++ lost) s
      ≡ ok (requests (payload ++ behind ∷ []) s)
unfolding read_request
read_request_whole fuel behind [] lost s z m = absurd (omega arith)
read_request_whole fuel behind (x ∷ payload) lost s z m =
    rw
      (
        ne_int_max (suc (length payload)) m,
        le→ltb (suc (length payload)) (suc (length (payload ++ lost))) (omega sizes),
      )
      (rw (take-append payload lost))

-- A request that comes whole in the first read is handed over, and all that the same read found
-- behind it is lost: the rest of the stream is what the read left.
pub read_data_from_cli-loses :
    (fuel behind fd : ℕ) (client : Client) (payload lost : Bytes) (s : Stream)
    → client.sockfd ≡ pos fd
    → 0 < length payload
    → length (frame payload ++ lost) ≤ 255
    → read_data_from_cli fuel behind (some client) (chunk (frame payload ++ lost) ∷ s)
      ≡ ok (requests (payload ++ behind ∷ []) s)
unfolding read_data_from_cli decode_request read_request read_fd
read_data_from_cli-loses fuel behind fd client [] lost s e z h = absurd (omega arith)
read_data_from_cli-loses fuel behind fd client (x ∷ payload) lost s e z h =
    let size : to_int (le_value _ _ _ _) ≡ pos (suc (length payload)) =
      ap to_int
        (le_value-le_bytes (suc (length payload)) (omega (arith, length-append payload lost)))
      ∙ to_int-small (suc (length payload)) (omega (arith, length-append payload lost)) in
    rw e (
      rw (fits (length (frame (x ∷ payload) ++ lost)) h) (
        rw (le→ltb 4 (suc (suc (suc (suc (suc (length (payload ++ lost))))))) (omega arith)) (
          subst
            (λ v.
              read_request fuel behind v (x ∷ (payload ++ lost)) s
              ≡ ok (requests (x ∷ (payload ++ behind ∷ [])) s))
            (sym size)
            (read_request_whole fuel behind (x ∷ payload) lost s z
              (omega (arith, length-append payload lost))))))
  where
    fits : (n : ℕ) → n ≤ 255 → leb n 255 ≡ true
    fits n k = ground arith

-- The connection ends, or a read fails, before the request is complete.
fill_buffer-quits :
    (fuel left : ℕ) (filled : Bytes) (cs : List Bytes)
    → NonEmpty cs
    → length (joined cs) < left
    → length cs < fuel
    → fill_buffer fuel left filled (chunks cs) ≡ ok (quits [])
unfolding fill_buffer read_fd
fill_buffer-quits zero left filled cs n l h = elim h [ ]
fill_buffer-quits (suc fuel) zero filled cs n l h = absurd (omega arith)
fill_buffer-quits (suc fuel) (suc left) filled [] n l h = refl
fill_buffer-quits (suc fuel) (suc left) filled (c ∷ cs) n l h =
    rw (fits (length c) left (omega sizes)) (
      rw (positive-ne-zero (length c) n.0) (
        fill_buffer-quits fuel (suc left - length c) (filled ++ c) cs n.1 (omega sizes)
          (omega arith)))
  where
    fits : (n m : ℕ) → n < suc m → leb n (suc m) ≡ true
    fits n m k = ground arith

read_request-quits :
    (fuel behind size : ℕ) (body : Bytes) (cs : List Bytes)
    → NonEmpty cs
    → length body + length (joined cs) < size
    → length cs < fuel
    → size < int_max
    → read_request fuel behind (pos size) body (chunks cs) ≡ ok (quits [])
unfolding read_request
read_request-quits fuel behind zero body cs n l h m = absurd (omega arith)
read_request-quits fuel behind (suc size) body cs n l h m =
    rw (ne_int_max (suc size) m, lt→ltb (length body) (suc size) (omega arith))
      (fill_buffer-quits fuel (suc size - length body) body cs n (omega arith) h)

-- Where the connection ends in the middle of a request of less than 2 ^ 31 - 1 bytes, behind its
-- length and not within the first four bytes that a read gives, the event is that the
-- client quits, and no data is handed over.
pub read_data_from_cli-quits :
    (fuel behind fd : ℕ) (client : Client) (payload missing first : Bytes) (cs : List Bytes)
    → client.sockfd ≡ pos fd
    → NonEmpty (first ∷ cs)
    → joined (first ∷ cs) ++ missing ≡ frame payload
    → 4 ≤ length first
    → 0 < length missing
    → length payload < int_max
    → length (first ∷ cs) < fuel
    → read_data_from_cli fuel behind (some client) (chunks (first ∷ cs)) ≡ ok (quits [])
unfolding read_data_from_cli
read_data_from_cli-quits fuel behind fd client payload missing first cs s n e m z w h =
    let r = read_fd-ReadsOnce 255 first cs (omega arith) n in
    let most = r.got_most in
    let fewer = r.left_fewer in
    let some_header : 4 ≤ length r.got = omega arith in
    let all : r.got ++ (joined r.left ++ missing) ≡ frame payload ++ [] =
      sym (append_assoc r.got (joined r.left) missing)
      ∙ ap (λ b. b ++ missing) r.splits
      ∙ e
      ∙ sym (append-nil (frame payload)) in
    let (body, decoded, follows, sized) =
      decode_request-frame fuel behind r.got (joined r.left ++ missing) payload [] (chunks r.left)
        all some_header w in
    rw (s, r.reads)
      (rw (le→ltb 4 (length r.got) some_header) (
        decoded
        ∙ read_request-quits fuel behind (length payload) body r.left r.left_NonEmpty
            (omega (sizes, ap length follows, ap length (append-nil payload))) (omega arith) w))

bad_size :
    (fuel behind w : ℕ) (body : Bytes) (s : Stream)
    → (w ≡ 0) ⊎ (2147483648 ≤ w)
    → read_request fuel behind (to_int w) body s
      ≡ ok (record {
        code = pos 1;
        type_id = some (pos msg_type_data_length_error);
        payload = none;
        rest = s;
      })
unfolding read_request
bad_size fuel behind w body s v = ground arith

-- A length of 0, or one that is negative as an int, gives the event of a wrong length and the
-- return code 1, whatever follows in the first read.
pub read_data_from_cli-length_error :
    (fuel behind fd b0 b1 b2 b3 : ℕ) (client : Client) (body : Bytes) (s : Stream)
    → client.sockfd ≡ pos fd
    → (le_value b0 b1 b2 b3 ≡ 0) ⊎ (2147483648 ≤ le_value b0 b1 b2 b3)
    → length body ≤ 251
    → read_data_from_cli fuel behind (some client) (chunk (b0 ∷ b1 ∷ b2 ∷ b3 ∷ body) ∷ s)
      ≡ ok (record {
        code = pos 1;
        type_id = some (pos msg_type_data_length_error);
        payload = none;
        rest = s;
      })
unfolding read_data_from_cli decode_request read_request read_fd
read_data_from_cli-length_error fuel behind fd b0 b1 b2 b3 client body s e v l = rw e (
    rw (fits (length body) l) (
      rw (le→ltb 4 (suc (suc (suc (suc (length body))))) (omega arith))
        (bad_size fuel behind (le_value b0 b1 b2 b3) body s v)))
  where
    fits : (n : ℕ) → n ≤ 251 → leb (suc (suc (suc (suc n)))) 255 ≡ true
    fits n k = ground arith
