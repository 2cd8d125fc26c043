-- ===== src/Context/Loops.antt =====
-- tg_context.c: the loops over the slots of the client table, for a loop as long as the table.
use tgserver.Base.{
  ℕ, zero, suc, ◌≡◌, refl, ◌⊎◌, inl, inr, false, List, [], ◌∷◌, ◌++◌, Option, none, some, ◌==◌,
  if◌then◌else◌, replicate, length, ok, Bool-cases, ==_iff, arith,
}
use tgserver.Context.{Client, Slots, find_slot, fill_slot, clear_slot}

-- The client that stands first among those with the process id.
unfoldable pub lookup : ℕ → Slots → Option Client
lookup pid [] = none
lookup pid (none ∷ xs) = lookup pid xs
lookup pid (some c ∷ xs) = if c.pid == pid then some c else lookup pid xs

-- The clients of a table.
unfoldable pub registered : Slots → List Client
registered [] = []
registered (none ∷ xs) = registered xs
registered (some c ∷ xs) = c ∷ registered xs

-- No two clients have one process id.
unfoldable pub Distinct : Slots → Type 0
Distinct [] = Unit
Distinct (none ∷ xs) = Distinct xs
Distinct (some c ∷ xs) = (lookup c.pid xs ≡ none) × Distinct xs

pub find_slot-lookup : (pid : ℕ) (xs : Slots) → find_slot (length xs) pid xs ≡ ok (lookup pid xs)
unfolding find_slot lookup
find_slot-lookup pid [] = refl
find_slot-lookup pid (none ∷ xs) = find_slot-lookup pid xs
find_slot-lookup pid (some c ∷ xs) = ground (arith, find_slot-lookup pid xs)

-- `ys` is `xs` with client c put in.
pub record Adds (c : Client) (xs ys : Slots) : Type 0 where
  pub lookups :
      (p : ℕ) → lookup c.pid xs ≡ none → lookup p ys ≡ (if c.pid == p then some c else lookup p xs)
  pub counts : length (registered ys) ≡ suc (length (registered xs))
  pub distinct : lookup c.pid xs ≡ none → Distinct xs → Distinct ys

Adds-some : (c d : Client) (xs ys : Slots) → Adds c xs ys → Adds c (some d ∷ xs) (some d ∷ ys)
unfolding lookup registered Distinct
Adds-some c d xs ys a = record {
  lookups = λ p h. ground (arith, a.lookups p);
  counts = omega (arith, a.counts);
  distinct = λ h g. (ground (arith, a.lookups d.pid), a.distinct (ground arith) g.1);
}

Adds-none : (c : Client) (xs : Slots) → Adds c (none ∷ xs) (some c ∷ xs)
unfolding lookup registered Distinct
Adds-none c xs = record { lookups = λ p h. refl; counts = refl; distinct = λ h g. (h, g) }

-- The loop of addClient fills a slot, or finds none, where the client fits behind the table.
pub fill_slot-Adds :
    (c : Client) (xs : Slots)
    → ((ys : Slots) × (fill_slot (length xs) c xs ≡ ok (some ys))
        × (length ys ≡ length xs)
        × Adds c xs ys)
      ⊎ (fill_slot (length xs) c xs ≡ ok none)
unfolding fill_slot
fill_slot-Adds c [] = inr refl
fill_slot-Adds c (none ∷ xs) = inl (some c ∷ xs, refl, refl, Adds-none c xs)
fill_slot-Adds c (some d ∷ xs) = elim (fill_slot-Adds c xs) [
  | inl (ys, e, l, a) ↦ inl (some d ∷ ys, rw e, omega (arith, l), Adds-some c d xs ys a)
  | inr e ↦ inr (rw e)
]

pub lookup-replicate : (n p : ℕ) → lookup p (replicate n none) ≡ none
unfolding lookup
lookup-replicate zero p = refl
lookup-replicate (suc n) p = lookup-replicate n p

pub Distinct-replicate : (n : ℕ) → Distinct (replicate n none)
unfolding Distinct
Distinct-replicate zero = tt
Distinct-replicate (suc n) = Distinct-replicate n

pub registered-replicate : (n : ℕ) → registered (replicate n none) ≡ []
unfolding registered
registered-replicate zero = refl
registered-replicate (suc n) = registered-replicate n

pub append-Adds : (c : Client) (n : ℕ) (xs : Slots) → Adds c xs (xs ++ some c ∷ replicate n none)
unfolding lookup registered Distinct
append-Adds c n [] = record {
  lookups = λ p h. rw (lookup-replicate n p);
  counts = rw (registered-replicate n);
  distinct = λ h g. (lookup-replicate n c.pid, Distinct-replicate n);
}
append-Adds c n (none ∷ xs) =
    let a = append-Adds c n xs in
    record { lookups = a.lookups; counts = a.counts; distinct = a.distinct }
append-Adds c n (some d ∷ xs) = Adds-some c d xs _ (append-Adds c n xs)

-- `ys` is `xs` with client c taken out.
pub record Removes (c : Client) (xs ys : Slots) : Type 0 where
  pub lookups : (p : ℕ) → Distinct xs → lookup p ys ≡ (if c.pid == p then none else lookup p xs)
  pub counts : length (registered xs) ≡ suc (length (registered ys))
  pub distinct : Distinct xs → Distinct ys
  pub same_length : length ys ≡ length xs

Removes-some :
    (c d : Client) (xs ys : Slots)
    → (d.pid == c.pid) ≡ false
    → Removes c xs ys
    → Removes c (some d ∷ xs) (some d ∷ ys)
unfolding lookup registered Distinct
Removes-some c d xs ys n r = record {
  lookups = λ p g. ground (arith, r.lookups p g.1);
  counts = omega (arith, r.counts);
  distinct = λ g. (ground (arith, r.lookups d.pid g.1), r.distinct g.1);
  same_length = omega (arith, r.same_length);
}

Removes-here : (c : Client) (xs : Slots) → Removes c (some c ∷ xs) (none ∷ xs)
unfolding lookup registered Distinct
Removes-here c xs = record {
  lookups = λ p g. ground arith;
  counts = refl;
  distinct = λ g. g.1;
  same_length = refl;
}

Removes-none : (c : Client) (xs ys : Slots) → Removes c xs ys → Removes c (none ∷ xs) (none ∷ ys)
unfolding lookup registered Distinct
Removes-none c xs ys r = record {
  lookups = r.lookups;
  counts = r.counts;
  distinct = r.distinct;
  same_length = omega (arith, r.same_length);
}

-- The outcome of the loop of closeClient.
abbrev pub Clears : ℕ → Slots → Option Client → Type 0
Clears pid xs none = clear_slot (length xs) pid xs ≡ ok none
Clears pid xs (some c) =
    (ys : Slots) × (clear_slot (length xs) pid xs ≡ ok (some (c, ys)))
    × (c.pid ≡ pid)
    × Removes c xs ys

Clears-none :
    (pid : ℕ) (xs : Slots) (r : Option Client) → Clears pid xs r → Clears pid (none ∷ xs) r
unfolding clear_slot
Clears-none pid xs none e = rw e
Clears-none pid xs (some c) (ys, e, k, r) = (none ∷ ys, rw e, k, Removes-none c xs ys r)

Clears-some :
    (pid : ℕ) (d : Client) (xs : Slots) (r : Option Client)
    → (d.pid == pid) ≡ false
    → Clears pid xs r
    → Clears pid (some d ∷ xs) r
unfolding clear_slot
Clears-some pid d xs none n e = rw (n, e)
Clears-some pid d xs (some c) n (ys, e, k, r) =
    (some d ∷ ys, rw (n, e), k, Removes-some c d xs ys (ground arith) r)

-- It takes out the client that the search finds, and nothing where there is none.
pub clear_slot-Clears : (pid : ℕ) (xs : Slots) → Clears pid xs (lookup pid xs)
unfolding lookup
clear_slot-Clears pid [] = unfold clear_slot in refl
clear_slot-Clears pid (none ∷ xs) = Clears-none pid xs _ (clear_slot-Clears pid xs)
clear_slot-Clears pid (some d ∷ xs) = elim (Bool-cases (d.pid == pid)) [
  | inl e ↦ rw e (none ∷ xs, unfold clear_slot in rw e, (==_iff d.pid pid).0 e, Removes-here d xs)
  | inr e ↦ rw e (Clears-some pid d xs (lookup pid xs) e (clear_slot-Clears pid xs))
]
