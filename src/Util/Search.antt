-- ===== src/Util/Search.antt =====
-- tg_util.c: what the two searches and the cutting of a library name find.
use tgserver.Base.{
  sizes, ℕ, zero, suc, ◌+◌, ◌-◌, ◌≤◌, [], ◌∷◌, ◌++◌, Option, some, ◌==◌, ◌≡◌, refl, ap, sym, subst,
  ◌≢◌, ◌⊎◌, inl, inr, arith, length, take, drop, All, ℤ, pos, negsuc, Run, ok, fault, ◌>>=◌, Bytes,
  strncmp_eq, with_nul, Bool-cases, length-append, append_assoc, All-append, elem_at, drop_all,
  drop-suc-append, le→ltb, take-append-drop, length-take, take_all, ==_iff, append-nil,
}
use tgserver.Util.{
  cut_name, find_loop, find_separator, last_loop, last_find_separator, get_lib_name,
}

abbrev pub Lacks : ℕ → Bytes → Type 0
Lacks s = All (λ x. x ≢ s)

-- The outcome of a search for the first `s`: its position, or -1.
abbrev pub FindsFirst : ℕ → Bytes → Run ℤ → Type 0
FindsFirst s source (ok (pos p)) =
    (front : Bytes) × (back : Bytes) × (source ≡ front ++ s ∷ back)
    × (length front ≡ p)
    × Lacks s front
FindsFirst s source (ok (negsuc n)) = (n ≡ 0) × Lacks s source
FindsFirst s source fault = ⊥

-- The outcome of a search for the last `s`: its position, or a negative number.
abbrev pub FindsLast : ℕ → Bytes → Run ℤ → Type 0
FindsLast s source (ok (pos p)) =
    (front : Bytes) × (back : Bytes) × (source ≡ front ++ s ∷ back)
    × (length front ≡ p)
    × Lacks s back
FindsLast s source (ok (negsuc n)) = Lacks s source
FindsLast s source fault = ⊥

-- One byte is compared and nothing behind it is read.
strncmp_eq-one : (x s : ℕ) (a b : Bytes) → strncmp_eq 1 (x ∷ a) (s ∷ b) ≡ ok (x == s)
unfolding strncmp_eq
strncmp_eq-one x s a b = ground arith

find_loop-first :
    (stack seen left rest : Bytes) (s : ℕ)
    → Lacks s seen
    → FindsFirst s
        (seen ++ left)
        (find_loop stack (length left) (left ++ rest) (length seen) (s ∷ []))
unfolding find_loop
find_loop-first stack seen [] rest s h = (refl, rw append-nil h)
find_loop-first stack seen (x ∷ left) rest s h =
    rw (strncmp_eq-one x s stack (0 ∷ [])) (elim (Bool-cases (x == s)) [
      | inl e ↦ rw e (seen, left, rw ((==_iff x s).0 e), refl, h)
      | inr e ↦ rw e (
          rw (append_assoc seen (x ∷ []) left, length-append seen (x ∷ [])) at
            (find_loop-first stack (seen ++ x ∷ []) left rest s
              (All-append (λ y. y ≢ s) seen (x ∷ []) h ((λ q. ground arith), tt))))
    ])

one_more : (n : ℕ) → suc n ≡ suc n - 1 + 1
one_more n = omega arith

one_less : (n : ℕ) → n ≡ suc n - 1
one_less n = omega arith

-- findSeparator with a separator of one byte returns the position of its first occurrence in the
-- source, and -1 where the source has none; it reads nothing outside its buffers.
pub find_separator-FindsFirst :
    (stack source : Bytes) (s : ℕ)
    → FindsFirst s source (find_separator stack (some source) (some (s ∷ [])))
unfolding find_separator
find_separator-FindsFirst stack [] s = (refl, tt)
find_separator-FindsFirst stack (x ∷ source) s = rw (le→ltb 1 (length (x ∷ source)) (omega arith)) (
    subst
      (λ n. FindsFirst s (x ∷ source) (find_loop stack (suc n) (with_nul (x ∷ source)) 0 (s ∷ [])))
      (one_less (length source)) (find_loop-first stack [] (x ∷ source) (0 ∷ []) s tt))

last_loop-last :
    (before k : ℕ) (stack source : Bytes) (s : ℕ)
    → k ≤ length source
    → Lacks s (drop k source)
    → FindsLast s source (last_loop stack before (with_nul source) k (s ∷ []))
unfolding last_loop
last_loop-last before zero stack source s h l =
    rw (strncmp_eq-one before s stack (0 ∷ []))
      (elim (Bool-cases (before == s)) [ inl e ↦ rw e l | inr e ↦ rw e l ])
last_loop-last before (suc k) stack source s h l =
    let (y, at, here) = elem_at source (0 ∷ []) k h in
    rw (at, last_loop)
      (rw (strncmp_eq-one y s stack (0 ∷ [])) (elim (Bool-cases (y == s)) [
        | inl e ↦ rw e (
          take k source,
          drop (suc k) source,
          rw (← (==_iff y s).0 e, ← here) (sym (take-append-drop k source)),
          (rw (length-take k source) (omega arith)),
          l,
        )
        | inr e ↦ rw e (
            last_loop-last before k stack source s (omega arith) (rw here ((λ q. ground arith), l)))
      ]))

-- lastFindSeparator with a separator of one byte returns the position of its last occurrence, and a
-- negative number where the source has none.
pub last_find_separator-FindsLast :
    (before : ℕ) (stack source : Bytes) (s : ℕ)
    → FindsLast s source (last_find_separator stack before (some source) (some (s ∷ [])))
unfolding last_find_separator
last_find_separator-FindsLast before stack [] s = tt
last_find_separator-FindsLast before stack (x ∷ source) s =
    rw (le→ltb 1 (length (x ∷ source)) (omega arith)) (
      subst
        (λ n. FindsLast s (x ∷ source) (last_loop stack before (with_nul (x ∷ source)) n (s ∷ [])))
        (one_more (length source))
        (last_loop-last before (suc (length source)) stack (x ∷ source) s (omega arith)
          (rw (drop_all (length source) source (omega arith)) tt)))

-- The name cut from a path: what follows its last "/", and the old name where it has none.
abbrev pub CutsName : Bytes → Option Bytes → Run (Option Bytes) → Type 0
CutsName path old (ok name) =
    ((front : Bytes) × (base : Bytes) × (path ≡ front ++ b'/' ∷ base)
      × Lacks b'/' base
      × (name ≡ some base))
    ⊎ (Lacks b'/' path × (name ≡ old))
CutsName path old fault = ⊥

cut_name_base :
    (path front base : Bytes) (p : ℕ) (old : Option Bytes)
    → path ≡ front ++ b'/' ∷ base
    → length front ≡ p
    → cut_name path (pos p) old ≡ some base
unfolding cut_name
cut_name_base path front base p old e l =
    rw (e, ← l, rest) (ap some (take_all _ base (omega sizes)))
  where
    shift : (n : ℕ) → n + 1 ≡ suc n
    shift n = omega arith

    rest : drop (length front + 1) (front ++ b'/' ∷ base) ≡ base
    rest = rw shift (drop-suc-append front base b'/')

cut-CutsName :
    (path : Bytes) (old : Option Bytes) (r : Run ℤ)
    → FindsLast b'/' path r
    → CutsName path old (r >>= λ p. ok (cut_name path p old))
unfolding cut_name
cut-CutsName path old (ok (pos p)) (front, back, e, l, k) =
    inl (front, back, e, k, cut_name_base path front back p old e l)
cut-CutsName path old (ok (negsuc n)) h = inr (h, refl)
cut-CutsName path old fault h = absurd h

-- getLibName stores what follows the last "/" of the path; it stores nothing where there is none,
-- although lastFindSeparator then answers -2 or -1.
pub get_lib_name-CutsName :
    (before : ℕ) (stack path : Bytes) (old : Option Bytes)
    → CutsName path old (get_lib_name stack before (some path) old)
unfolding get_lib_name
get_lib_name-CutsName before stack path old =
    cut-CutsName path old _ (last_find_separator-FindsLast before stack path b'/')
