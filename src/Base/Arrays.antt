-- ===== src/Base/Arrays.antt =====
-- Arrays as lists: a copy and a store that are faults where they leave the array.
use Prim.Native.Nat.{ℕ, zero, suc, ◌+◌, ◌<◌, ◌≤◌}
use mathlib.Core.Path.{◌≡◌, refl, ap}
use mathlib.Core.List.{List, [], ◌∷◌, ◌++◌}
use tgserver.Base.Lists.{length, replicate}
use native.Mathlib.Omega.{arith}
use tgserver.Base.Faults.{Run, ok, fault, ◌>>=◌}

module _ {ℓ} {A : Type ℓ} where
  -- memcpy of n elements.
  unfoldable pub memcpy : ℕ → List A → Run (List A)
  memcpy zero xs = ok []
  memcpy (suc n) [] = fault
  memcpy (suc n) (x ∷ xs) = do rest ← memcpy n xs; ok (x ∷ rest)

  -- xs[i] = v.
  unfoldable pub store : List A → ℕ → A → Run (List A)
  store [] i v = fault
  store (x ∷ xs) zero v = ok (v ∷ xs)
  store (x ∷ xs) (suc i) v = do ys ← store xs i v; ok (x ∷ ys)

  pub memcpy-length : (xs ys : List A) → memcpy (length xs) (xs ++ ys) ≡ ok xs
  unfolding memcpy
  memcpy-length [] ys = refl
  memcpy-length (x ∷ xs) ys = rw (memcpy-length xs ys)

  pub store-append :
      (v x : A) (xs ys : List A) → store (xs ++ x ∷ ys) (length xs) v ≡ ok (xs ++ v ∷ ys)
  unfolding store
  store-append v x [] ys = refl
  store-append v x (d ∷ xs) ys = rw (store-append v x xs ys)

  pub memcpy_all : (xs : List A) → memcpy (length xs) xs ≡ ok xs
  unfolding memcpy
  memcpy_all [] = refl
  memcpy_all (x ∷ xs) = rw (memcpy_all xs)

  -- memcpy into an array, from the index i on.
  unfoldable pub write_at : ℕ → List A → List A → Run (List A)
  write_at zero [] xs = ok xs
  write_at zero (v ∷ new) (x ∷ xs) = do rest ← write_at zero new xs; ok (v ∷ rest)
  write_at (suc i) new (x ∷ xs) = do rest ← write_at i new xs; ok (x ∷ rest)
  write_at _ _ [] = fault

  write_front :
      (new old back : List A)
      → length old ≡ length new
      → write_at 0 new (old ++ back) ≡ ok (new ++ back)
  unfolding write_at
  write_front [] [] back h = refl
  write_front [] (y ∷ old) back h = absurd (omega arith)
  write_front (v ∷ new) [] back h = absurd (omega arith)
  write_front (v ∷ new) (y ∷ old) back h = rw (write_front new old back (omega arith))

  pub write_at-append :
      (front new old back : List A)
      → length old ≡ length new
      → write_at (length front) new (front ++ (old ++ back)) ≡ ok (front ++ (new ++ back))
  unfolding write_at
  write_at-append [] new old back h = write_front new old back h
  write_at-append (x ∷ front) new old back h = rw (write_at-append front new old back h)

  -- A write that does not fit is a fault.
  pub write_at-long :
      (i : ℕ) (new xs : List A) → length xs < i + length new → write_at i new xs ≡ fault
  unfolding write_at
  write_at-long zero [] xs h = absurd (omega arith)
  write_at-long zero (v ∷ new) [] h = refl
  write_at-long zero (v ∷ new) (x ∷ xs) h = rw (write_at-long zero new xs (omega arith))
  write_at-long (suc i) new [] h = refl
  write_at-long (suc i) new (x ∷ xs) h = rw (write_at-long i new xs (omega arith))

  pub replicate-add :
      (k m n : ℕ) (a : A) → k ≡ m + n → replicate k a ≡ replicate m a ++ replicate n a
  replicate-add k zero n a e = let same : k ≡ n = omega arith in ap (λ i. replicate i a) same
  replicate-add zero (suc m) n a e = absurd (omega arith)
  replicate-add (suc k) (suc m) n a e = ap (◌∷◌ a) (replicate-add k m n a (omega arith))

  pub memcpy_enough : (n : ℕ) (xs : List A) → n ≤ length xs → (ys : List A) × (memcpy n xs ≡ ok ys)
  unfolding memcpy
  memcpy_enough zero xs h = ([], refl)
  memcpy_enough (suc n) [] h = absurd (omega arith)
  memcpy_enough (suc n) (x ∷ xs) h =
      let (ys, e) = memcpy_enough n xs (omega arith) in (x ∷ ys, rw e refl)
