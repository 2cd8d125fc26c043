-- ===== src/Context/Counts.antt =====
-- tg_context.c: what getCurrentClientCounts counts, and what closing all clients and releasing the
-- context close.
use tgserver.Base.{
  ℕ, ◌+◌, ◌≡◌, refl, ap, List, [], ◌∷◌, ◌++◌, map, none, some, replicate, length, Run, ok, fault,
  ◌>>=◌, arith,
}
use tgserver.Context.{
  Client, Context, Slots, Action, close_all_client, clear_slots, release, release_slots,
  release_client, release_context, released, get_current_client_counts, count_leading,
}
use tgserver.Context.Loops.{registered}
use tgserver.Context.Table.{with_table}

-- The outcome of getCurrentClientCounts on a table: the number of the clients in front of the first
-- NULL slot, or an access behind the array where no slot is NULL.
abbrev pub CountsLeading : Slots → Run ℕ → Type 0
CountsLeading xs (ok n) =
    (front : List Client) × (rest : Slots) × (xs ≡ map some front ++ none ∷ rest)
    × (length front ≡ n)
    × (length (registered xs) ≡ n + length (registered rest))
CountsLeading xs fault = (front : List Client) × (xs ≡ map some front)

CountsLeading-cons :
    (c : Client) (xs : Slots) (r : Run ℕ)
    → CountsLeading xs r
    → CountsLeading (some c ∷ xs) (r >>= λ n. ok (n + 1))
unfolding registered
CountsLeading-cons c xs (ok n) (front, rest, e, l, k) =
    (c ∷ front, rest, ap (◌∷◌ (some c)) e, omega (arith, l), omega (arith, k))
CountsLeading-cons c xs fault (front, e) = (c ∷ front, ap (◌∷◌ (some c)) e)

count_leading-CountsLeading : (xs : Slots) → CountsLeading xs (count_leading xs)
unfolding count_leading registered
count_leading-CountsLeading [] = ([], refl)
count_leading-CountsLeading (none ∷ xs) = ([], xs, refl, refl, omega arith)
count_leading-CountsLeading (some c ∷ xs) =
    CountsLeading-cons c xs _ (count_leading-CountsLeading xs)

-- getCurrentClientCounts, where the table is there, counts the clients in front of the first free
-- slot only, so that it misses those behind a client that has left; on a full table it reads behind
-- the array.
pub get_current_client_counts-CountsLeading :
    (xs : Slots) (g : Context) → CountsLeading xs (get_current_client_counts (with_table xs g))
unfolding get_current_client_counts
get_current_client_counts-CountsLeading xs g = count_leading-CountsLeading xs

-- The calls that release these clients, one after the other.
unfoldable pub release_all : List Client → List Action
release_all [] = []
release_all (c ∷ cs) = release_client (some c) ++ release_all cs

clear_slots-release_all :
    (xs : Slots)
    → clear_slots (length xs) xs ≡ ok (release_all (registered xs), replicate (length xs) none)
unfolding clear_slots release_all registered release_client
clear_slots-release_all [] = refl
clear_slots-release_all (none ∷ xs) = rw (clear_slots-release_all xs)
clear_slots-release_all (some c ∷ xs) = rw (clear_slots-release_all xs)

release_slots-release_all :
    (xs : Slots) → release_slots (length xs) xs ≡ ok (release_all (registered xs))
unfolding release_slots release_all registered release_client
release_slots-release_all [] = refl
release_slots-release_all (none ∷ xs) = rw (release_slots-release_all xs)
release_slots-release_all (some c ∷ xs) = rw (release_slots-release_all xs)

-- closeAllClient closes the descriptors of every client, in the order of the table, and empties all
-- slots; curClientCounts stays as it was.
pub close_all_client-release_all :
    (xs : Slots) (g : Context)
    → close_all_client (with_table xs g)
      ≡ ok (
        release_all (registered xs),
        record {
          clients = some (replicate (length xs) none);
          clients_ar_size = length xs;
          context = some g;
        },
      )
unfolding close_all_client
close_all_client-release_all xs g = rw (clear_slots-release_all xs)

-- release closes the descriptors of every client and then those of the context, and puts the global
-- variables back to NULL and 0.
pub release-release_all :
    (xs : Slots) (g : Context)
    → release (with_table xs g)
      ≡ ok (release_all (registered xs) ++ release_context (some g), released)
unfolding release
release-release_all xs g = rw (release_slots-release_all xs)
