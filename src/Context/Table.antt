-- ===== src/Context/Table.antt =====
-- tg_context.c: the client table implements a finite map from process ids to clients, and
-- curClientCounts counts its entries.
use tgserver.Base.{
  memcpy_all, store-append, ℕ, ◌+◌, ◌≡◌, refl, sym, ap, subst, ◌∙◌, inl, inr, Bool, true, false, [],
  ◌∷◌, ◌++◌, Option, none, some, ◌==◌, if◌then◌else◌, replicate, length, length-append, pos, ok,
  arith,
}
use tgserver.Context.{
  Client, Context, State, Slots, default_max_clients, initial_context, init, find_client,
  enter_client, add_client, close_client, release_client, inc, dec, clear_slot,
}
use tgserver.Context.Loops.{
  lookup, registered, Distinct, Adds, Clears, find_slot-lookup, fill_slot-Adds, append-Adds,
  clear_slot-Clears, lookup-replicate, registered-replicate, Distinct-replicate,
}

-- The global variables with a table and a context, the array being as long as clients_ar_size says.
abbrev pub with_table : Slots → Context → State
with_table xs g = record { clients = some xs; clients_ar_size = length xs; context = some g }

-- The array and the context are there, the array is as long as clients_ar_size says, no two clients
-- have one process id, and curClientCounts is the number of the clients.
pub record IsValid (s : State) : Type 0 where
  pub table : Slots
  pub globals : Context
  pub shape : s ≡ with_table table globals
  pub counted : globals.cur_client_counts ≡ pos (length (registered table))
  pub distinct : Distinct table

pub find_client-lookup :
    (p : ℕ) (xs : Slots) (g : Context) → find_client p (with_table xs g) ≡ ok (lookup p xs)
unfolding find_client
find_client-lookup p xs g = find_slot-lookup p xs

pub find_client-table :
    (p : ℕ) (s : State) (v : IsValid s) → find_client p s ≡ ok (lookup p v.table)
find_client-table p s v = ap (find_client p) v.shape ∙ find_client-lookup p v.table v.globals

ok-injective : {a b : Option Client} → ok a ≡ ok b → a ≡ b
ok-injective e = cc

lookup-of :
    (p : ℕ) (s : State) (v : IsValid s) {r : Option Client}
    → find_client p s ≡ ok r
    → lookup p v.table ≡ r
lookup-of p s v e = ok-injective (sym (find_client-table p s v) ∙ e)

if-ok : (b : Bool) (x y : Option Client) → ok (if b then x else y) ≡ (if b then ok x else ok y)
if-ok true x y = refl
if-ok false x y = refl

-- The table of a new state.
abbrev pub filled : Slots → Context → State
filled ys g = with_table ys (record g { cur_client_counts = inc g.cur_client_counts })

with_size :
    (ys : Slots) (g : Context) (n : ℕ)
    → n ≡ length ys
    → ok (record { clients = some ys; clients_ar_size = n; context = some g })
      ≡ ok (with_table ys g)
with_size ys g n e =
    ap (λ m. ok (record { clients = some ys; clients_ar_size = m; context = some g })) e

-- The table once the client is in its slot; the globals are untouched.
pub enter_client-Adds :
    (c : Client) (xs : Slots) (g : Context)
    → (ys : Slots) × (enter_client c (with_table xs g) ≡ ok (with_table ys g)) × Adds c xs ys
unfolding enter_client
enter_client-Adds c xs g = elim (fill_slot-Adds c xs) [
  | inl (ys, e, l, a) ↦ (ys, rw e (with_size ys g (length xs) (sym l)), a)
  | inr e ↦
      let more : Slots = replicate 19 none in
      (
        xs ++ some c ∷ more,
        rw (e, memcpy_all xs)
            (rw (store-append (some c) none xs more) (
              with_size (xs ++ some c ∷ more) g (length xs + 20)
                (omega (arith, length-append xs (some c ∷ more))))),
        append-Adds c 19 xs,
      )
]

pub add_client-filled :
    (c : Client) (xs : Slots) (g : Context)
    → (ys : Slots) × (add_client (some c) (with_table xs g) ≡ ok (filled ys g)) × Adds c xs ys
unfolding add_client
add_client-filled c xs g =
    let (ys, entered, a) = enter_client-Adds c xs g in (ys, rw entered refl, a)

-- To add a client whose process id is not in the table does not fault, keeps the invariant, and
-- changes the map at that id only: it now leads to the client.
pub add_client-IsValid :
    (c : Client) (s : State)
    → IsValid s
    → find_client c.pid s ≡ ok none
    → (s' : State) × (add_client (some c) s ≡ ok s')
      × IsValid s'
      × ((p : ℕ) → find_client p s' ≡ (if c.pid == p then ok (some c) else find_client p s))
add_client-IsValid c s v e =
    let (ys, added, a) = add_client-filled c v.table v.globals in
    let absent = lookup-of c.pid s v e in
    (
      filled ys v.globals,
      ap (add_client (some c)) v.shape ∙ added,
      record {
        table = ys;
        globals = record v.globals { cur_client_counts = inc v.globals.cur_client_counts };
        shape = refl;
        counted = ap inc v.counted ∙ ap pos (omega (arith, a.counts));
        distinct = a.distinct absent v.distinct;
      },
      (λ p.
          find_client-lookup p ys _
          ∙ ap ok (a.lookups p absent)
          ∙ if-ok (c.pid == p) (some c) (lookup p v.table)
          ∙ ap (λ r. if c.pid == p then ok (some c) else r) (sym (find_client-table p s v))),
    )

-- The outcome of closeClient where the search for its process id gives r: with no such client
-- nothing changes; else its descriptors are closed, the invariant is kept, and the map changes at
-- that id only, where it no longer has a client.
abbrev pub Closes : ℕ → State → Option Client → Type 0
Closes pid s none = close_client pid s ≡ ok ([], s)
Closes pid s (some c) =
    (s' : State) × (close_client pid s ≡ ok (release_client (some c), s'))
    × IsValid s'
    × ((p : ℕ) → find_client p s' ≡ (if pid == p then ok none else find_client p s))

-- The globals once a client is gone.
abbrev pub one_less : Context → Context
one_less g = record g { cur_client_counts = dec g.cur_client_counts }

pub close_absent :
    (pid : ℕ) (xs : Slots) (g : Context)
    → Clears pid xs none
    → close_client pid (with_table xs g) ≡ ok ([], with_table xs g)
unfolding close_client
close_absent pid xs g e = rw e

pub close_present :
    (pid : ℕ) (xs ys : Slots) (g : Context) (c : Client)
    → clear_slot (length xs) pid xs ≡ ok (some (c, ys))
    → length ys ≡ length xs
    → close_client pid (with_table xs g) ≡ ok (release_client (some c), with_table ys (one_less g))
unfolding close_client
close_present pid xs ys g c e l = rw e (
    ap
      (λ n. ok (
        release_client (some c),
        record { clients = some ys; clients_ar_size = n; context = some (one_less g) },
      ))
      (sym l))

closed-IsValid :
    (pid : ℕ) (s : State) (v : IsValid s) (r : Option Client)
    → Clears pid v.table r
    → Closes pid s r
closed-IsValid pid s v none e =
    subst (λ t. close_client pid t ≡ ok ([], t)) (sym v.shape)
      (close_absent pid v.table v.globals e)
closed-IsValid pid s v (some c) (ys, e, k, r) = (
  with_table ys (one_less v.globals),
  ap (close_client pid) v.shape ∙ close_present pid v.table ys v.globals c e r.same_length,
  record {
    table = ys;
    globals = one_less v.globals;
    shape = refl;
    counted = ap dec (v.counted ∙ ap pos r.counts);
    distinct = r.distinct v.distinct;
  },
  (λ p.
      find_client-lookup p ys _
      ∙ ap ok (r.lookups p v.distinct)
      ∙ if-ok (c.pid == p) none (lookup p v.table)
      ∙ ap (λ q. if c.pid == p then ok none else q) (sym (find_client-table p s v))
      ∙ ap (λ n. if n == p then ok none else find_client p s) k),
)

-- closeClient closes the client that findClient finds.
pub close_client-Closes :
    (pid : ℕ) (s : State) {r : Option Client}
    → IsValid s
    → find_client pid s ≡ ok r
    → Closes pid s r
close_client-Closes pid s v e =
    rw (← lookup-of pid s v e) (closed-IsValid pid s v _ (clear_slot-Clears pid v.table))

init-with_table :
    init (record { clients = none; clients_ar_size = 0; context = none })
    ≡ ok (with_table (replicate default_max_clients none) initial_context)
unfolding init
init-with_table = refl

-- As the program starts, init gives a table without any client, in which every invariant holds.
pub init-IsValid :
    (s' : State) × (init (record { clients = none; clients_ar_size = 0; context = none }) ≡ ok s')
    × IsValid s'
    × ((p : ℕ) → find_client p s' ≡ ok none)
init-IsValid = (
  with_table (replicate default_max_clients none) initial_context,
  init-with_table,
  record {
    table = replicate default_max_clients none;
    globals = initial_context;
    shape = refl;
    counted = ap (λ l. pos (length l)) (sym (registered-replicate default_max_clients));
    distinct = Distinct-replicate default_max_clients;
  },
  (λ p.
      find_client-lookup p (replicate default_max_clients none) initial_context
      ∙ ap ok (lookup-replicate default_max_clients p)),
)
