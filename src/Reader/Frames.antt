-- ===== src/Reader/Frames.antt =====
-- tg_process_reader.c: which request read_data_from_cli hands over, by the pieces in which
-- it arrives.
use tgserver.Base.{
  sizes, ℕ, suc, ◌+◌, ◌-◌, ◌/◌, ◌%◌, ◌≤◌, ◌<◌, ◌≡◌, sym, ap, subst, ◌∙◌, inl, inr, List, [], ◌∷◌,
  ◌++◌, some, false, ◌==◌, int_max, ltb, length, length-append, append-eq-append, eq-append_nil,
  append_rest, take_all, pos, Run, ok, Bool-cases, Bytes, with_nul, le_value, to_int, le_bytes,
  le_value-le_bytes, to_int-small, le→ltb, arith,
}
use tgserver.Context.{Client}
use tgserver.Reader.{Stream, Outcome, requests, read_request, decode_request, read_data_from_cli}
use tgserver.Reader.Inputs.{chunks, NonEmpty, joined, read_fd-ReadsOnce, fill_buffer-requests}

-- What a client sends for a request: the length in four bytes, then the bytes.
abbrev pub frame : Bytes → Bytes
frame payload = le_bytes (length payload) ++ payload

-- The call hands the request over in a buffer with one byte more, and leaves `more` in the stream.
abbrev pub HandsOver : Bytes → Bytes → Run Outcome → Type 0
HandsOver payload more r =
    (behind : ℕ) × (ds : List Bytes) × (r ≡ ok (requests (payload ++ behind ∷ []) (chunks ds)))
    × (joined ds ≡ more)

pub ne_int_max : (n : ℕ) → n < int_max → (n == int_max) ≡ false
ne_int_max n h = ground arith

read_request-HandsOver :
    (fuel behind : ℕ) (body payload more : Bytes) (left : List Bytes)
    → NonEmpty left
    → body ++ joined left ≡ payload ++ more
    → length body ≤ length payload
    → 0 < length payload
    → length payload < int_max
    → length left < fuel
    → HandsOver payload more (read_request fuel behind (pos (length payload)) body (chunks left))
unfolding read_request
read_request-HandsOver fuel behind body [] more left n e l z m h = absurd (omega arith)
read_request-HandsOver fuel behind body (y ∷ ys) more left n e l z m h =
    let no_overflow = ne_int_max (suc (length ys)) m in
    let (t, p, q) = append-eq-append body (joined left) (y ∷ ys) more e l in
    elim (Bool-cases (ltb (length body) (suc (length ys)))) [
      | inl b ↦
          let (ds, filled, rest) =
            fill_buffer-requests fuel (suc (length ys) - length body) body t more left n q
              (omega (sizes, ap length p)) (inl h) in
          (
            0,
            ds,
            rw (no_overflow, b) (filled ∙ ap (λ m. ok (requests (with_nul m) (chunks ds))) (sym p)),
            rest,
          )
      | inr b ↦
          let none_left : length t ≡ 0 = ground (arith, ap length p, length-append body t) in
          let whole : body ≡ y ∷ ys = sym (p ∙ eq-append_nil body t none_left) in
          (
            behind,
            left,
            rw (no_overflow, b)
                (ap (λ m. ok (requests (m ++ behind ∷ []) (chunks left)))
                  (take_all (suc (length ys)) body l ∙ whole)),
            q ∙ append_rest t more none_left,
          )
    ]

-- The four bytes in front are read as the length of the request.
pub decode_request-frame :
    (fuel behind : ℕ) (got rest payload more : Bytes) (s : Stream)
    → got ++ rest ≡ frame payload ++ more
    → 4 ≤ length got
    → length payload < int_max
    → (body : Bytes) × (decode_request fuel behind got s
        ≡ read_request fuel behind (pos (length payload)) body s)
      × (body ++ rest ≡ payload ++ more)
      × (length got ≡ 4 + length body)
unfolding decode_request
decode_request-frame fuel behind (b0 ∷ b1 ∷ b2 ∷ b3 ∷ body) rest payload more s e l w =
    let e0 : b0 ≡ length payload % 256 = cc in
    let e1 : b1 ≡ length payload / 256 % 256 = cc in
    let e2 : b2 ≡ length payload / 65536 % 256 = cc in
    let e3 : b3 ≡ length payload / 16777216 % 256 = cc in
    let size : to_int (le_value b0 b1 b2 b3) ≡ pos (length payload) =
      (λ i. to_int (le_value (e0 i) (e1 i) (e2 i) (e3 i)))
      ∙ ap to_int (le_value-le_bytes (length payload) (omega arith))
      ∙ to_int-small (length payload) (omega arith) in
    (body, ap (λ v. read_request fuel behind v body s) size, cc, omega arith)
decode_request-frame fuel behind _ rest payload more s e l w = absurd (omega arith)

-- A request of less than 2 ^ 31 - 1 bytes whose first read gives the whole length and nothing of a
-- later request is handed over byte for byte, however the bytes arrive; the bytes that follow it
-- stay in the stream. More fuel than chunks is enough.
pub read_data_from_cli-HandsOver :
    (fuel behind fd : ℕ) (client : Client) (payload more first : Bytes) (cs : List Bytes)
    → client.sockfd ≡ pos fd
    → NonEmpty (first ∷ cs)
    → joined (first ∷ cs) ≡ frame payload ++ more
    → 4 ≤ length first
    → length first ≤ 4 + length payload
    → 0 < length payload
    → length payload < int_max
    → length (first ∷ cs) < fuel
    → HandsOver payload more (read_data_from_cli fuel behind (some client) (chunks (first ∷ cs)))
unfolding read_data_from_cli
read_data_from_cli-HandsOver fuel behind fd client payload more first cs s n e l m z w h =
    let r = read_fd-ReadsOnce 255 first cs (omega arith) n in
    let most = r.got_most in
    let fewer = r.left_fewer in
    let some_header : 4 ≤ length r.got = omega arith in
    let (body, decoded, follows, sized) =
      decode_request-frame fuel behind r.got (joined r.left) payload more (chunks r.left)
        (r.splits ∙ e) some_header w in
    rw (s, r.reads)
      (rw (le→ltb 4 (length r.got) some_header) (
        subst (HandsOver payload more) (sym decoded) (
          read_request-HandsOver fuel behind body payload more r.left r.left_NonEmpty follows
            (omega (arith, r.got_sub)) z w (omega arith))))
