-- ===== src/Process/Interrupted/Tests.antt =====
-- tg_process.c: the theorems where a client quits while another one is accepted.
use tgserver.Base.{◌≡◌, refl, List, [], ◌∷◌, none, some, replicate, pos, ok, codes}
use tgserver.Context.{State, Action, Client, initial_context, find_client, init_client}
use tgserver.Context.Loops.{registered, Distinct, lookup}
use tgserver.Context.Table.{with_table, IsValid}
use tgserver.Process.{Arrival, parent, returned, do_accept, entered, handle_child_quit_signal}
use tgserver.Process.Clients.{parent_closes}
use tgserver.Process.Interrupted.{accept_interrupted}
use tgserver.Process.Interrupted.Ghosts.{accept_interrupted-stays}

abbrev visit : Arrival
visit = record {
  sockfd = pos 4;
  host = codes "10.0.0.1";
  port = 52000;
  to_child = (pos 5, pos 6);
  to_main = (pos 7, pos 8);
}

abbrev old_client : Client
old_client = record init_client { pid = 17; write_pipe = pos 9 }

abbrev one_client : State
one_client =
    with_table (some old_client ∷ replicate 19 none)
      (record initial_context { cur_client_counts = pos 1 })

one_client-IsValid : IsValid one_client
unfolding registered Distinct lookup
one_client-IsValid = record {
  table = some old_client ∷ replicate 19 none;
  globals = record initial_context { cur_client_counts = pos 1 };
  shape = refl;
  counted = refl;
  distinct = (refl, tt);
}

accept_interrupted-stays_example :
    ((acts more : List Action) × (t u : State) × (accept_interrupted
          (18 ∷ [])
          []
          visit
          18
          one_client
        ≡ ok (acts, t))
      × IsValid t
      × (handle_child_quit_signal (17 ∷ []) t ≡ ok (more, u))
      × (find_client 18 u ≡ ok (some (entered visit 18))))
    × (acts : List Action) × (t u : State) × (do_accept visit (parent 18) one_client
        ≡ ok (returned (parent_closes visit) t (pos 0)))
    × (handle_child_quit_signal (18 ∷ []) t ≡ ok (acts, u))
    × (find_client 18 u ≡ ok none)
unfolding find_client
accept_interrupted-stays_example =
    accept_interrupted-stays (18 ∷ []) (17 ∷ []) visit 18 one_client one_client-IsValid refl refl
      refl refl

abbrev started : State
started = with_table (replicate 20 none) initial_context

-- A client that comes first, and one that comes while the first quits.
abbrev counted_twice : State
counted_twice =
    with_table (none ∷ some (entered visit 19) ∷ replicate 18 none)
      (record initial_context { cur_client_counts = pos 2 })
