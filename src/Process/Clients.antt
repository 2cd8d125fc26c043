-- ===== src/Process/Clients.antt =====
-- tg_process.c: the client table of the main process behind do_accept and behind the handler of
-- SIGCHLD, each undisturbed. Interrupted has the handler in the middle of do_accept.
use tgserver.Base.{
  ℕ, ◌≡◌, refl, ap, subst, ◌∙◌, Bool, true, false, List, [], ◌∷◌, ◌++◌, Option, none, some, ◌==◌,
  arith, if◌then◌else◌, pos, Run, ok,
}
use tgserver.Context.{Client, State, Action, close_fd, close_client, find_client, release_client}
use tgserver.Context.Table.{
  IsValid, Closes, add_client-IsValid, close_client-Closes, find_client-table,
}
use tgserver.Context.Signals.{is_minus_one}
use tgserver.Process.{
  Arrival, parent, returned, do_accept, accept_parent, entered, handle_child_quit_signal,
}

-- The calls of the main process for a new client: it closes the ends that the child uses.
abbrev pub parent_closes : Arrival → List Action
parent_closes a = close_fd a.sockfd ∷ close_fd a.to_main.1 ∷ close_fd a.to_child.0 ∷ []

-- In the main process, a connection with a new process id does not fault, keeps the invariant of
-- the table, closes the three descriptors that the child uses, and enters the client under its
-- process id, with its address and the two pipe ends that the main process keeps.
pub do_accept-IsValid :
    (a : Arrival) (pid : ℕ) (s : State)
    → is_minus_one a.sockfd ≡ false
    → IsValid s
    → find_client pid s ≡ ok none
    → (t : State) × (do_accept a (parent pid) s ≡ ok (returned (parent_closes a) t (pos 0)))
      × IsValid t
      × ((p : ℕ)
          → find_client p t ≡ (if pid == p then ok (some (entered a pid)) else find_client p s))
unfolding do_accept accept_parent
do_accept-IsValid a pid s live v e =
    let (t, added, w, lookups) = add_client-IsValid (entered a pid) s v e in
    (t, rw (live, added) refl, w, lookups)

-- closeClient for any process id.
close_any :
    (pid : ℕ) (s : State) (r : Option Client)
    → IsValid s
    → find_client pid s ≡ ok r
    → Closes pid s r
    → (acts : List Action) × (t : State) × (close_client pid s ≡ ok (acts, t))
      × IsValid t
      × ((p : ℕ) → find_client p t ≡ (if pid == p then ok none else find_client p s))
close_any pid s none v e c = ([], s, c, v, λ p. same p (pid == p) (ap_find p))
  where
    ap_find : (p : ℕ) → (pid == p) ≡ true → find_client p s ≡ ok none
    ap_find p h = subst (λ n. find_client n s ≡ ok none) (ground arith) e

    same :
        (p : ℕ) (b : Bool)
        → (b ≡ true → find_client p s ≡ ok none)
        → find_client p s ≡ (if b then ok none else find_client p s)
    same p true h = h refl
    same p false h = refl
close_any pid s (some c) v e (t, closed, w, lookups) =
    (release_client (some c), t, closed, w, lookups)

-- A process id is among those that have quit.
abbrev pub quit : ℕ → List ℕ → Bool
quit p [] = false
quit p (pid ∷ pids) = if pid == p then true else quit p pids

gone :
    (p pid : ℕ) (pids : List ℕ) (before : Run (Option Client))
    → (if quit p pids then ok none else (if pid == p then ok none else before))
      ≡ (if quit p (pid ∷ pids) then ok none else before)
gone p pid pids before = ground arith

-- Where the table keeps the invariant, the handler of the signal that children have quit does not
-- fault, keeps the invariant, and takes out the clients of these processes and no other.
pub handle_child_quit_signal-IsValid :
    (pids : List ℕ) (s : State)
    → IsValid s
    → (acts : List Action) × (t : State) × (handle_child_quit_signal pids s ≡ ok (acts, t))
      × IsValid t
      × ((p : ℕ) → find_client p t ≡ (if quit p pids then ok none else find_client p s))
unfolding handle_child_quit_signal
handle_child_quit_signal-IsValid [] s v = ([], s, refl, v, λ p. refl)
handle_child_quit_signal-IsValid (pid ∷ pids) s v =
    let found = find_client-table pid s v in
    let (acts, t, closed, w, lookups) =
      close_any pid s _ v found (close_client-Closes pid s v found) in
    let (more, u, rest, x, later) = handle_child_quit_signal-IsValid pids t w in
    (
      acts ++ more,
      u,
      rw (closed, rest) refl,
      x,
      (λ p.
          later p
          ∙ ap (λ q. if quit p pids then ok none else q) (lookups p)
          ∙ gone p pid pids (find_client p s)),
    )
