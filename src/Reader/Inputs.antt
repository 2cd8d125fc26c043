-- ===== src/Reader/Inputs.antt =====
-- tg_process_reader.c: one read of a stream that delivers bytes, and the loop over such reads.
use tgserver.Base.{
  sizes, ℕ, zero, suc, ◌-◌, ◌≤◌, ◌<◌, ◌≡◌, refl, sym, ap, ◌∙◌, ◌⊎◌, inl, inr, false, List, [], ◌∷◌,
  ◌++◌, map, append_assoc, append-nil, leb, ◌==◌, length, take, drop, take-append-drop,
  append-eq-append, All, pos, ok, Bool-cases, Bytes, with_nul, arith,
}
use tgserver.Reader.{chunk, Stream, read_fd, requests, fill_buffer}

-- A stream of chunks, none of them empty.
abbrev pub chunks : List Bytes → Stream
chunks = map chunk

abbrev pub NonEmpty : List Bytes → Type 0
NonEmpty = All (λ b. 0 < length b)

-- The bytes of the chunks, in order.
abbrev pub joined : List Bytes → Bytes
joined [] = []
joined (b ∷ bs) = b ++ joined bs

-- What one read with some room takes from chunk `c` with `cs` behind it.
pub record ReadsOnce (room : ℕ) (c : Bytes) (cs : List Bytes) : Type 0 where
  pub got : Bytes
  pub left : List Bytes
  pub reads :
      read_fd room (chunk c ∷ chunks cs)
      ≡ record { count = pos (length got); bytes = got; rest = chunks left }
  pub splits : got ++ joined left ≡ c ++ joined cs
  pub left_NonEmpty : NonEmpty left
  pub got_some : 0 < length got
  pub got_fits : length got ≤ room
  pub got_sub : length got ≤ length c
  pub got_most : (length got ≡ length c) ⊎ (length got ≡ room)
  pub left_fewer :
      (length left ≡ length cs) ⊎ ((length left ≡ suc (length cs)) × (length got ≡ room))

pub read_fd-ReadsOnce :
    (room : ℕ) (c : Bytes) (cs : List Bytes) → 0 < room → NonEmpty (c ∷ cs) → ReadsOnce room c cs
unfolding read_fd
read_fd-ReadsOnce room c cs r n = elim (Bool-cases (leb (length c) room)) [
  | inl e ↦ record {
    got = c;
    left = cs;
    reads = rw e;
    splits = refl;
    left_NonEmpty = n.1;
    got_some = n.0;
    got_fits = ground arith;
    got_sub = omega arith;
    got_most = inl refl;
    left_fewer = inl refl;
  }
  | inr e ↦
      let short : room < length c = ground arith in
      let cut : length (take room c) ≡ room = omega sizes in
      record {
        got = take room c;
        left = drop room c ∷ cs;
        reads = rw (e, cut);
        splits =
            sym (append_assoc (take room c) (drop room c) (joined cs))
            ∙ ap (λ d. d ++ joined cs) (take-append-drop room c);
        left_NonEmpty = (omega sizes, n.1);
        got_some = omega arith;
        got_fits = omega arith;
        got_sub = omega arith;
        got_most = inr cut;
        left_fewer = inr (refl, cut);
      }
]

pub positive-ne-zero : (n : ℕ) → 0 < n → (n == 0) ≡ false
positive-ne-zero n h = ground arith

-- The fuel is enough: it exceeds the chunks, or nothing is left to be read.
abbrev pub Enough : ℕ → ℕ → List Bytes → Type 0
Enough fuel left cs = (length cs < fuel) ⊎ ((left ≡ 0) × (0 < fuel))

pub Enough-left :
    (fuel room n : ℕ) (cs ds : List Bytes)
    → length cs < fuel
    → (length ds ≡ length cs) ⊎ ((length ds ≡ suc (length cs)) × (n ≡ suc room))
    → Enough fuel (suc room - n) ds
Enough-left fuel room n cs ds h (inl e) = inl (omega arith)
Enough-left fuel room n cs ds h (inr e) = inr (omega arith, omega arith)

-- The loop over reads gets exactly the bytes that are left of the request, and leaves the bytes
-- behind it in the stream.
pub fill_buffer-requests :
    (fuel left : ℕ) (filled wanted more : Bytes) (cs : List Bytes)
    → NonEmpty cs
    → joined cs ≡ wanted ++ more
    → length wanted ≡ left
    → Enough fuel left cs
    → (ds : List Bytes) × (fill_buffer fuel left filled (chunks cs)
        ≡ ok (requests (with_nul (filled ++ wanted)) (chunks ds)))
      × (joined ds ≡ more)
unfolding fill_buffer
fill_buffer-requests zero left filled wanted more cs n e l h = absurd (omega arith)
fill_buffer-requests (suc fuel) zero filled [] more cs n e l h = (cs, rw append-nil, e)
fill_buffer-requests (suc fuel) zero filled (x ∷ wanted) more cs n e l h = absurd (omega arith)
fill_buffer-requests (suc fuel) (suc left) filled [] more cs n e l h = absurd (omega arith)
fill_buffer-requests (suc fuel) (suc left) filled (x ∷ wanted) more [] n e l h = cc
fill_buffer-requests (suc fuel) (suc left) filled (x ∷ wanted) more (c ∷ cs) n e l h =
    let r = read_fd-ReadsOnce (suc left) c cs (omega arith) n in
    let (t, p, q) =
      append-eq-append r.got (joined r.left) (x ∷ wanted) more (r.splits ∙ e)
        (omega (arith, r.got_fits)) in
    let (ds, filled_up, rest) =
      fill_buffer-requests fuel (suc left - length r.got) (filled ++ r.got) t more r.left
        r.left_NonEmpty q (omega (sizes, ap length p))
        (Enough-left fuel left (length r.got) cs r.left (fewer h) r.left_fewer) in
    (
      ds,
      rw r.reads (
          rw (positive-ne-zero (length r.got) r.got_some) (
            filled_up
            ∙ ap (λ m. ok (requests (with_nul m) (chunks ds)))
                (append_assoc filled r.got t ∙ ap (λ m. filled ++ m) (sym p)))),
      rest,
    )
  where
    fewer : length (c ∷ cs) < suc fuel ⊎ ((suc left ≡ 0) × (0 < suc fuel)) → length cs < fuel
    fewer (inl k) = omega arith
    fewer (inr k) = absurd (omega arith)
