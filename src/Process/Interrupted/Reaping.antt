-- ===== src/Process/Interrupted/Reaping.antt =====
-- tg_process.c: what the handler of SIGCHLD does to the table, whatever the counter is.
use tgserver.Base.{
  ℕ, zero, suc, ◌+◌, ◌<◌, ◌≡◌, refl, sym, ap, subst, ◌∙◌, inl, inr, true, false, List, [], ◌∷◌,
  ◌++◌, Option, none, some, ◌==◌, if◌then◌else◌, length, ok, Bool-cases, ==_iff, arith,
}
use tgserver.Context.{Client, Context, Slots, Action, close_client, release_client}
use tgserver.Context.Loops.{lookup, registered, Distinct, Clears, clear_slot-Clears}
use tgserver.Context.Table.{with_table, one_less, close_absent, close_present}
use tgserver.Process.{handle_child_quit_signal}
use tgserver.Process.Clients.{quit}

-- The counter behind k decrements.
abbrev pub lessened : ℕ → Context → Context
lessened zero g = g
lessened (suc k) g = lessened k (one_less g)

-- `ys` is `xs` without the clients of the processes, which are k.
pub record Reaps (pids : List ℕ) (xs ys : Slots) (k : ℕ) : Type 0 where
  pub counts : length (registered xs) ≡ k + length (registered ys)
  pub lookups : (p : ℕ) → Distinct xs → lookup p ys ≡ (if quit p pids then none else lookup p xs)
  pub distinct : Distinct xs → Distinct ys
  pub reaped :
      (p : ℕ) (c : Client) → lookup p xs ≡ some c → quit p pids ≡ true → Distinct xs → 0 < k

-- What the handler does for the processes.
abbrev pub Handles : List ℕ → Slots → Type 0
Handles pids xs =
    (acts : List Action) × (ys : Slots) × (k : ℕ) × ((g : Context)
      → handle_child_quit_signal pids (with_table xs g) ≡ ok (acts, with_table ys (lessened k g)))
    × Reaps pids xs ys k

-- The table loses the client of a process, or has none of it.
pub data Loses (pid : ℕ) (xs : Slots) : Type 0 where
  loses :
      (acts : List Action) (ys : Slots) (k : ℕ)
      → ((g : Context)
          → close_client pid (with_table xs g) ≡ ok (acts, with_table ys (lessened k g)))
      → Reaps (pid ∷ []) xs ys k
      → Loses pid xs

lookup_same :
    (pid p : ℕ) (xs : Slots) {r : Option Client}
    → lookup pid xs ≡ r
    → (pid == p) ≡ true
    → lookup p xs ≡ r
lookup_same pid p xs {r} e h = subst (λ n. lookup n xs ≡ r) ((==_iff pid p).0 h) e

quit_one : (pid p : ℕ) → quit p (pid ∷ []) ≡ (pid == p)
quit_one pid p = ground arith

absent_lookups :
    (pid p : ℕ) (xs : Slots)
    → lookup pid xs ≡ none
    → lookup p xs ≡ (if pid == p then none else lookup p xs)
absent_lookups pid p xs e = elim (Bool-cases (pid == p)) [
  | inl b ↦ lookup_same pid p xs e b ∙ rw b refl
  | inr b ↦ rw b refl
]

close-Loses :
    (pid : ℕ) (xs : Slots) (r : Option Client) → lookup pid xs ≡ r → Clears pid xs r → Loses pid xs
close-Loses pid xs none e c =
    loses [] xs 0 (λ g. close_absent pid xs g c)
      (record {
        counts = omega arith;
        lookups = λ p d. absent_lookups pid p xs e ∙ rw (quit_one pid p) refl;
        distinct = λ d. d;
        reaped = λ p c h q d.
            let there : lookup p xs ≡ none = lookup_same pid p xs e (sym (quit_one pid p) ∙ q) in
            cc;
      })
close-Loses pid xs (some c) e (ys, f, k, r) =
    loses (release_client (some c)) ys 1 (λ g. close_present pid xs ys g c f r.same_length)
      (record {
        counts = omega (arith, r.counts);
        lookups = λ p d.
            r.lookups p d
            ∙ (λ i. if k i == p then none else lookup p xs)
            ∙ rw (quit_one pid p) refl;
        distinct = r.distinct;
        reaped = λ p c h q d. omega arith;
      })

quit_more :
    (p pid : ℕ) (pids : List ℕ) (before : Option Client)
    → (if quit p pids then none else (if quit p (pid ∷ []) then none else before))
      ≡ (if quit p (pid ∷ pids) then none else before)
quit_more p pid pids before = ground arith

quit_later :
    (p pid : ℕ) (pids : List ℕ)
    → (pid == p) ≡ false
    → quit p (pid ∷ pids) ≡ true
    → quit p pids ≡ true
quit_later p pid pids b e = ground arith

Reaps-more :
    (pid : ℕ) (pids : List ℕ) (xs ys zs : Slots) (j k : ℕ)
    → Reaps (pid ∷ []) xs ys j
    → Reaps pids ys zs k
    → Reaps (pid ∷ pids) xs zs (j + k)
Reaps-more pid pids xs ys zs j k r q = record {
  counts = omega (arith, r.counts, q.counts);
  lookups = λ p d.
      q.lookups p (r.distinct d)
      ∙ ap (λ o. if quit p pids then none else o) (r.lookups p d)
      ∙ quit_more p pid pids (lookup p xs);
  distinct = λ d. q.distinct (r.distinct d);
  reaped = λ p c h e d. elim (Bool-cases (pid == p)) [
    | inl b ↦ omega (arith, r.reaped p c h (quit_one pid p ∙ b) d)
    | inr b ↦
        let left : lookup p ys ≡ some c = r.lookups p d ∙ rw (quit_one pid p, b) h in
        omega (arith, q.reaped p c left (quit_later p pid pids b e) (r.distinct d))
  ];
}

lessened_more : (j k : ℕ) (g : Context) → lessened k (lessened j g) ≡ lessened (j + k) g
lessened_more zero k g = let e : k ≡ zero + k = omega arith in ap (λ n. lessened n g) e
lessened_more (suc j) k g =
    let e : suc (j + k) ≡ suc j + k = omega arith in
    lessened_more j k (one_less g) ∙ ap (λ n. lessened n g) e

-- The handler, for any processes.
pub handle-Handles : (pids : List ℕ) (xs : Slots) → Handles pids xs
unfolding handle_child_quit_signal
handle-Handles [] xs = (
  [],
  xs,
  0,
  (λ g. refl),
  record {
    counts = omega arith;
    lookups = λ p d. refl;
    distinct = λ d. d;
    reaped = λ p c h q d. cc;
  },
)
handle-Handles (pid ∷ pids) xs = elim (close-Loses pid xs _ refl (clear_slot-Clears pid xs)) [
  | loses acts ys j closed r ↦
      let (more, zs, k, handled, q) = handle-Handles pids ys in
      (
        acts ++ more,
        zs,
        j + k,
        (λ g. rw (closed g, handled (lessened j g)) (rw (lessened_more j k g) refl)),
        Reaps-more pid pids xs ys zs j k r q,
      )
]
