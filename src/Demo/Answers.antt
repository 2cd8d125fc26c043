-- ===== src/Demo/Answers.antt =====
-- plugins/demo/demo.c: the answer with the points, and what becomes of it in the process that sends
-- it.
use tgserver.Base.{
  sizes, ℕ, zero, suc, ◌+◌, ◌-◌, ◌*◌, ◌%◌, ◌≤◌, ◌<◌, ◌≡◌, refl, sym, ap, subst, ◌∙◌, true, [], ◌∷◌,
  ◌++◌, append_assoc, append-nil, some, pos, leb, ◌⊎◌, inl, inr, length, replicate, drop,
  length-replicate, drop-append, ok, fault, ◌>>=◌, Bytes, codes, strcmp_eq, with_nul, le_bytes,
  memcpy, memcpy-length, write_at, write_at-append, write_at-long, replicate-add, memcpy_enough,
  arith,
}
use tgserver.Context.{Client}
use tgserver.Response.{reply}
use tgserver.Response.Requests.{Frames, reply-Frames}
use tgserver.Demo.{point_size, answer_points, count_of, do_request}

abbrev pub all_points : Bytes
all_points = with_nul (codes "tg://libdemo.so/all")

-- The shared memory with the number n, below 256, in its four bytes behind the reserved ones.
abbrev pub holding : Bytes → ℕ → Bytes → Bytes
holding reserved n data_segment = reserved ++ (n ∷ 0 ∷ 0 ∷ 0 ∷ data_segment)

abbrev pub zeros : ℕ → Bytes
zeros n = replicate n 0

length-zeros : (n : ℕ) → length (zeros n) ≡ n
length-zeros n = length-replicate n 0

-- The number behind the size, the points, and the bytes that the size counts beyond them.
abbrev pub numbered : ℕ → Bytes → Bytes
numbered n points = le_bytes n ++ (points ++ zeros (n - 4))

do_request-holding :
    (reserved behind : Bytes) (n : ℕ) (data_segment : Bytes)
    → length reserved ≡ 10
    → do_request (some (holding reserved n data_segment)) (all_points ++ behind)
      ≡ answer_points (point_size n 0 0 0) data_segment
unfolding do_request count_of strcmp_eq
do_request-holding reserved behind n data_segment r =
    let at : drop 10 (holding reserved n data_segment) ≡ n ∷ 0 ∷ 0 ∷ 0 ∷ data_segment =
      (λ j. drop (sym r j) (holding reserved n data_segment)) ∙ drop-append reserved _ in
    let behind_count : drop 14 (holding reserved n data_segment) ≡ data_segment =
      (λ j.
        drop (sym (fourteen reserved n r) j)
          (sym (append_assoc reserved (n ∷ 0 ∷ 0 ∷ 0 ∷ []) data_segment) j))
      ∙ drop-append (reserved ++ n ∷ 0 ∷ 0 ∷ 0 ∷ []) data_segment in
    rw at (rw behind_count refl)
  where
    fourteen : (a : Bytes) (m : ℕ) → length a ≡ 10 → length (a ++ m ∷ 0 ∷ 0 ∷ 0 ∷ []) ≡ 14
    fourteen a m e = omega sizes

-- The answer up to the copy of the points.
answer_points-copies :
    (n : ℕ) (points rest : Bytes)
    → 0 < n
    → n < 128
    → length points ≡ n * 8
    → n ≤ length rest
    → answer_points (pos n) (points ++ rest)
      ≡ (write_at 8 points (le_bytes (n * 9) ++ (le_bytes n ++ zeros (n * 9 - 4))) >>= λ p. ok p)
unfolding answer_points
answer_points-copies n points rest k m l r =
    rw size (rw room (rw split (rw first (rw second (rw copied (rw shown refl))))))
  where
    back : Bytes
    back = zeros (n * 9 - 4)

    size : (n + n * 8) % 4294967296 ≡ n * 9
    size = omega arith

    room : (n * 9 + 4) % 4294967296 ≡ n * 9 + 4
    room = omega arith

    split : zeros (n * 9 + 4) ≡ zeros 8 ++ back
    split = replicate-add (n * 9 + 4) 8 (n * 9 - 4) 0 (omega arith)

    first :
        write_at 0 (le_bytes (n * 9)) (zeros 8 ++ back) ≡ ok (le_bytes (n * 9) ++ (zeros 4 ++ back))
    first = write_at-append [] (le_bytes (n * 9)) (zeros 4) (zeros 4 ++ back) refl

    second :
        write_at 4 (le_bytes n) (le_bytes (n * 9) ++ (zeros 4 ++ back))
        ≡ ok (le_bytes (n * 9) ++ (le_bytes n ++ back))
    second = write_at-append (le_bytes (n * 9)) (le_bytes n) (zeros 4) back refl

    copied : memcpy (n * 8) (points ++ rest) ≡ ok points
    copied = (λ j. memcpy (sym l j) (points ++ rest)) ∙ memcpy-length points rest

    enough : (ys : Bytes) × (memcpy (n * 9) (points ++ rest) ≡ ok ys)
    enough = memcpy_enough (n * 9) (points ++ rest) (omega sizes)

    shown : memcpy (n * 9) (points ++ rest) ≡ ok (enough.0)
    shown = enough.1

many_points :
    (n : ℕ) (points rest : Bytes)
    → 4 ≤ n
    → n < 128
    → length points ≡ n * 8
    → n ≤ length rest
    → answer_points (pos n) (points ++ rest) ≡ ok (le_bytes (n * 9) ++ numbered n points)
many_points n points rest k m l r =
    answer_points-copies n points rest (omega arith) m l r ∙ rw split (rw third refl)
  where
    split : zeros (n * 9 - 4) ≡ zeros (n * 8) ++ zeros (n - 4)
    split = replicate-add (n * 9 - 4) (n * 8) (n - 4) 0 (omega arith)

    third :
        write_at 8 points (le_bytes (n * 9) ++ (le_bytes n ++ (zeros (n * 8) ++ zeros (n - 4))))
        ≡ ok (le_bytes (n * 9) ++ numbered n points)
    third =
        write_at-append (le_bytes (n * 9) ++ le_bytes n) points (zeros (n * 8)) (zeros (n - 4))
          (length-zeros (n * 8) ∙ sym l)

no_point : (data_segment : Bytes) → answer_points (pos 0) data_segment ≡ fault
unfolding answer_points write_at
no_point data_segment = refl

few_points :
    (n : ℕ) (points rest : Bytes)
    → 0 < n
    → n < 4
    → length points ≡ n * 8
    → n ≤ length rest
    → answer_points (pos n) (points ++ rest) ≡ fault
few_points n points rest z h l r =
    answer_points-copies n points rest z (omega arith) l r
    ∙ rw (
        write_at-long 8 points (le_bytes (n * 9) ++ (le_bytes n ++ zeros (n * 9 - 4)))
          (omega (arith, length-zeros (n * 9 - 4))))

negative_points :
    (n : ℕ) (data_segment : Bytes)
    → 128 ≤ n
    → answer_points (point_size n 0 0 0) data_segment ≡ fault
unfolding answer_points
negative_points n data_segment h = rw (at_least n h) refl
  where
    at_least : (m : ℕ) → 128 ≤ m → leb 128 m ≡ true
    at_least m k = ground arith

-- The answer to "tg://libdemo.so/all" where the shared memory holds n points, n below 256, and at
-- least n bytes behind them: for 4 to 127 points it is the size 9 * n, the number, the points, and
-- n - 4 bytes of 0; for fewer points the copy leaves the buffer, and from 128 to 255 the number is
-- read as a negative one.
pub do_request-points :
    (reserved points rest behind : Bytes) (n : ℕ)
    → length reserved ≡ 10
    → length points ≡ n * 8
    → n ≤ length rest
    → n < 256
    → (4 ≤ n
        → n < 128
        → do_request (some (holding reserved n (points ++ rest))) (all_points ++ behind)
          ≡ ok (le_bytes (n * 9) ++ numbered n points))
      × ((n < 4) ⊎ (128 ≤ n)
          → do_request (some (holding reserved n (points ++ rest))) (all_points ++ behind) ≡ fault)
do_request-points reserved points rest behind n r l e w = (
  (λ k m.
      do_request-holding reserved behind n (points ++ rest) r
      ∙ ap (λ v. answer_points v (points ++ rest)) (below n m)
      ∙ many_points n points rest k m l e),
  λ h. do_request-holding reserved behind n (points ++ rest) r ∙ elim h [
    | inl few ↦
        ap (λ v. answer_points v (points ++ rest)) (below n (omega arith)) ∙ fewer n points few l e
    | inr many ↦ negative_points n (points ++ rest) many
  ],
)
  where
    below : (m : ℕ) → m < 128 → point_size m 0 0 0 ≡ pos m
    below m k = ground arith

    fewer :
        (m : ℕ) (ps : Bytes)
        → m < 4
        → length ps ≡ m * 8
        → m ≤ length rest
        → answer_points (pos m) (ps ++ rest) ≡ fault
    fewer zero ps h k i = no_point (ps ++ rest)
    fewer (suc m) ps h k i = few_points (suc m) ps rest (omega arith) h k i

-- What the client of such a process gets for "tg://libdemo.so/all": one frame with the number, the
-- points and n - 4 bytes of 0.
pub reply-points :
    (c : Client) (reserved points rest behind : Bytes) (n : ℕ)
    → length reserved ≡ 10
    → length points ≡ n * 8
    → n ≤ length rest
    → 4 ≤ n
    → n < 128
    → Frames c (numbered n points) (
        do_request (some (holding reserved n (points ++ rest))) (all_points ++ behind) >>= λ m.
        reply c (some m))
reply-points c reserved points rest behind n r l e k m =
    rw ((do_request-points reserved points rest behind n r l e (omega arith)).0 k m) (
      subst (λ t. Frames c (numbered n points) (reply c (some t))) whole
        (reply-Frames c (numbered n points) [] (omega (arith, size)) (omega (arith, size))))
  where
    size : length (numbered n points) ≡ n * 9
    size = omega (sizes, length-zeros (n - 4))

    whole :
        le_bytes (length (numbered n points)) ++ (numbered n points ++ [])
        ≡ le_bytes (n * 9) ++ numbered n points
    whole = (λ j. le_bytes (size j) ++ append-nil (numbered n points) j)
