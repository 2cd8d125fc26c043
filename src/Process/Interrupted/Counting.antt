-- ===== src/Process/Interrupted/Counting.antt =====
-- tg_process.c: what do_accept, interrupted by the handler of SIGCHLD, leaves in curClientCounts.
use tgserver.Base.{ℕ, zero, suc, ◌+◌, ◌≡◌, refl, ap, ◌∙◌, List, ◌++◌, ℤ, pos, ok, arith}
use tgserver.Context.{Context, Slots, State, Action, enter_client, count_clients, inc}
use tgserver.Context.Table.{with_table, one_less}
use tgserver.Process.{Arrival, entered, handle_child_quit_signal}
use tgserver.Process.Clients.{parent_closes}
use tgserver.Process.Interrupted.{accept_interrupted, read_counts}
use tgserver.Process.Interrupted.Reaping.{lessened}

-- do_accept with the handler, up to the counter: what was closed, the table, and how much too high
-- the counter is.
pub torn_accept :
    (early torn : List ℕ) (a : Arrival) (pid : ℕ) (s : State) (xs ys zs : Slots) (g : Context)
    (acts more : List Action) (k : ℕ)
    → handle_child_quit_signal early s ≡ ok (acts, with_table xs g)
    → enter_client (entered a pid) (with_table xs g) ≡ ok (with_table ys g)
    → handle_child_quit_signal torn (with_table ys g) ≡ ok (more, with_table zs (lessened k g))
    → accept_interrupted early torn a pid s
      ≡ ok (
        acts ++ (parent_closes a ++ more),
        with_table zs (record (lessened k g) { cur_client_counts = inc g.cur_client_counts }),
      )
unfolding accept_interrupted read_counts count_clients
torn_accept early torn a pid s xs ys zs g acts more k h e r = rw (h, e, r) refl

abbrev pub counting : Context → ℕ → Context
counting g n = record g { cur_client_counts = pos n }

abbrev pub raised : ℕ → ℤ → ℤ
raised zero z = z
raised (suc k) z = inc (raised k z)

pub raised-pos : (k r : ℕ) → raised k (pos r) ≡ pos (k + r)
raised-pos zero r = ap pos (omega arith)
raised-pos (suc k) r = ap inc (raised-pos k r) ∙ ap pos (omega arith)

pub lessened-counting : (k r : ℕ) (g : Context) → lessened k (counting g (k + r)) ≡ counting g r
lessened-counting zero r g = let e : zero + r ≡ r = omega arith in ap (counting g) e
lessened-counting (suc k) r g =
    let e : suc k + r ≡ suc (k + r) = omega arith in
    ap (λ n. lessened (suc k) (counting g n)) e ∙ lessened-counting k r g

pub lessened-count :
    (k : ℕ) (g : Context) (z : ℤ)
    → record (lessened k g) { cur_client_counts = z } ≡ record g { cur_client_counts = z }
lessened-count zero g z = refl
lessened-count (suc k) g z = lessened-count k (one_less g) z
