-- ===== src/Process/Interrupted/Ghosts.antt =====
-- tg_process.c: what is left in the table where the handler of SIGCHLD interrupts do_accept.
use tgserver.Base.{
  ℕ, ◌≡◌, refl, ap, ◌∙◌, true, false, List, [], ◌++◌, none, some, ◌==◌, pos, ok, arith,
}
use tgserver.Context.{State, Action, find_client, add_client, count_clients}
use tgserver.Context.Table.{IsValid, with_table, filled, add_client-IsValid, enter_client-Adds}
use tgserver.Context.Signals.{is_minus_one}
use tgserver.Process.{Arrival, parent, returned, do_accept, entered, handle_child_quit_signal}
use tgserver.Process.Clients.{
  quit, parent_closes, do_accept-IsValid, handle_child_quit_signal-IsValid,
}
use tgserver.Process.Interrupted.{accept_interrupted}
use tgserver.Process.Interrupted.Counting.{torn_accept}

interrupted-add :
    (early : List ℕ) (a : Arrival) (pid : ℕ) (s s1 t : State) (acts : List Action)
    → handle_child_quit_signal early s ≡ ok (acts, s1)
    → add_client (some (entered a pid)) s1 ≡ ok t
    → IsValid s1
    → accept_interrupted early [] a pid s ≡ ok (acts ++ (parent_closes a ++ []), t)
unfolding add_client count_clients handle_child_quit_signal
interrupted-add early a pid s s1 t acts h e v =
    let (ys, entry, adds) = enter_client-Adds (entered a pid) v.table v.globals in
    let whole : add_client (some (entered a pid)) (with_table v.table v.globals)
        ≡ ok (filled ys v.globals) =
      rw entry refl in
    let begun : add_client (some (entered a pid)) s1 ≡ ok (filled ys v.globals) =
      ap (add_client (some (entered a pid))) v.shape ∙ whole in
    let same : filled ys v.globals ≡ t = cc in
    torn_accept early [] a pid s v.table ys ys v.globals acts [] 0
      (h ∙ ap (λ z. ok (acts, z)) v.shape) entry refl
    ∙ ap (λ z. ok (acts ++ (parent_closes a ++ []), z)) same

-- Where the process of a new client has quit by the time that do_accept enters the client, and the
-- handler has already been told, the table keeps the invariant, but the client is in it and stays
-- there when the processes `later`, of which it is none, quit. Where the handler runs behind
-- do_accept, the client is gone.
pub accept_interrupted-stays :
    (early later : List ℕ) (a : Arrival) (pid : ℕ) (s : State)
    → IsValid s
    → find_client pid s ≡ ok none
    → is_minus_one a.sockfd ≡ false
    → quit pid early ≡ true
    → quit pid later ≡ false
    → ((acts more : List Action) × (t u : State) × (accept_interrupted early [] a pid s
          ≡ ok (acts, t))
        × IsValid t
        × (handle_child_quit_signal later t ≡ ok (more, u))
        × (find_client pid u ≡ ok (some (entered a pid))))
      × (acts : List Action) × (t u : State) × (do_accept a (parent pid) s
          ≡ ok (returned (parent_closes a) t (pos 0)))
      × (handle_child_quit_signal early t ≡ ok (acts, u))
      × (find_client pid u ≡ ok none)
accept_interrupted-stays early later a pid s v absent live q n =
    let (acts, s1, early_done, v1, kept) = handle_child_quit_signal-IsValid early s v in
    let still : find_client pid s1 ≡ ok none = kept pid ∙ rw q refl in
    let (t, added, w, lookups) = add_client-IsValid (entered a pid) s1 v1 still in
    let there : find_client pid t ≡ ok (some (entered a pid)) =
      lookups pid ∙ rw (same_pid pid) refl in
    let (more, u, done, y, after) = handle_child_quit_signal-IsValid later t w in
    let (t', accepted, w', lookups') = do_accept-IsValid a pid s live v absent in
    let (acts', u', reaped, x, left) = handle_child_quit_signal-IsValid early t' w' in
    (
      (
        acts ++ (parent_closes a ++ []),
        more,
        t,
        u,
        interrupted-add early a pid s s1 t acts early_done added v1,
        w,
        done,
        after pid ∙ rw n there,
      ),
      acts',
      t',
      u',
      accepted,
      reaped,
      left pid ∙ rw q refl,
    )
  where
    same_pid : (n : ℕ) → (n == n) ≡ true
    same_pid n = ground arith
