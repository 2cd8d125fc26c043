-- ===== src/Context/Tests.antt =====
-- tg_context.c: the theorems on a table with one client.
use tgserver.Base.{ℕ, [], ◌∷◌, none, some, ◌==◌, if◌then◌else◌, ◌≡◌, refl, replicate, pos, ok}
use tgserver.Context.{
  Client, State, Action, initial_context, add_client, release, release_client, released,
  find_client, init_client, get_current_client_counts,
}
use tgserver.Context.Loops.{registered, lookup, Distinct}
use tgserver.Context.Table.{with_table, IsValid, Closes, add_client-IsValid, close_client-Closes}

abbrev visitor : Client
visitor = record init_client { pid = 4711; read_pipe = pos 8; write_pipe = pos 9; port = 52000 }

abbrev empty_table : State
empty_table = with_table (replicate 20 none) initial_context

abbrev one_client : State
one_client =
    with_table (some visitor ∷ replicate 19 none)
      (record initial_context { cur_client_counts = pos 1 })

empty_table-IsValid : IsValid empty_table
unfolding registered Distinct
empty_table-IsValid = record {
  table = replicate 20 none;
  globals = initial_context;
  shape = refl;
  counted = refl;
  distinct = tt;
}

one_client-IsValid : IsValid one_client
unfolding registered Distinct lookup
one_client-IsValid = record {
  table = some visitor ∷ replicate 19 none;
  globals = record initial_context { cur_client_counts = pos 1 };
  shape = refl;
  counted = refl;
  distinct = (refl, tt);
}

add_client-IsValid_example :
    (s : State) × (add_client (some visitor) empty_table ≡ ok s)
    × IsValid s
    × ((p : ℕ)
        → find_client p s ≡ (if 4711 == p then ok (some visitor) else find_client p empty_table))
unfolding find_client
add_client-IsValid_example = add_client-IsValid visitor empty_table empty_table-IsValid refl

close_client-Closes_example : Closes 4711 one_client (some visitor)
unfolding find_client
close_client-Closes_example = close_client-Closes 4711 one_client one_client-IsValid refl

-- A release before the server listens closes descriptor 0: init zeroes the two descriptors.
release_closes_stdin :
    release empty_table
    ≡ ok (
      Action.shutdown_fd (pos 0) ∷ Action.close_fd (pos 0) ∷ Action.close_fd (pos 0) ∷ [],
      released,
    )
unfolding release release_client
release_closes_stdin = refl

-- The one client in the table is not counted, since the slot in front of it is free.
counts_miss :
    get_current_client_counts (with_table (none ∷ some visitor ∷ []) initial_context) ≡ ok 0
unfolding get_current_client_counts
counts_miss = refl
