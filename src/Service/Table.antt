-- ===== src/Service/Table.antt =====
-- tg_service.c: what addService stores and findServiceN finds.
use native.Mathlib.Nat.{zero-add, suc-add}
use tgserver.Base.{
  ℕ, zero, suc, ◌+◌, ◌≡◌, ◌≢◌, ◌↔◌, refl, sym, ap, inl, inr, Bool, true, false, ◌&&◌, List, [], ◌∷◌,
  ◌++◌, map, Option, none, some, ◌==◌, if◌then◌else◌, length, replicate, length-append, Run, ok,
  fault, ◌>>=◌, Bytes, with_nul, strcmp_eq, string_at, memcpy, store, All, Bool-cases, arith,
}
use tgserver.Service.{
  Service, Slot, null, wild, service, Services, add_service, add_behind, fill_slot, find_service_n,
  find_position, copy_service, default_service_size,
}

-- The table with these services, and `free` slots of NULL behind them.
abbrev pub holding : List Service → ℕ → Services
holding ss free = record {
  table = some (map service ss ++ replicate free null);
  counts = length ss + free;
}

abbrev pub no_services : Services
no_services = record { table = none; counts = 0 }

-- The slots that are free once a service is added: a full table gets ten slots more.
abbrev pub free_behind : ℕ → ℕ
free_behind zero = 9
free_behind (suc free) = free

fill_slot-free :
    (p : Service) (free : ℕ) (ss : List Service)
    → fill_slot (length ss + suc free) p (map service ss ++ replicate (suc free) null)
      ≡ ok (some (map service (ss ++ p ∷ []) ++ replicate free null))
unfolding fill_slot
fill_slot-free p free [] = rw zero-add
fill_slot-free p free (x ∷ ss) = rw (suc-add (length ss) (suc free)) (rw (fill_slot-free p free ss))

fill_slot-full :
    (p : Service) (ss : List Service) → fill_slot (length ss + 0) p (map service ss ++ []) ≡ ok none
unfolding fill_slot
fill_slot-full p [] = refl
fill_slot-full p (x ∷ ss) = rw (suc-add (length ss) 0) (rw (fill_slot-full p ss))

memcpy-services :
    (ss : List Service) → memcpy (length ss + 0) (map service ss ++ []) ≡ ok (map service ss)
unfolding memcpy
memcpy-services [] = refl
memcpy-services (x ∷ ss) = rw (suc-add (length ss) 0) (rw (memcpy-services ss))

store-services :
    (v : Slot) (xs : List Slot) (ss : List Service)
    → store (map service ss ++ null ∷ xs) (length ss + 0) v ≡ ok (map service ss ++ v ∷ xs)
unfolding store
store-services v xs [] = refl
store-services v xs (x ∷ ss) = rw (suc-add (length ss) 0) (rw (store-services v xs ss))

map-snoc :
    (p : Service) (xs : List Slot) (ss : List Service)
    → map service (ss ++ p ∷ []) ++ xs ≡ map service ss ++ service p ∷ xs
map-snoc p xs [] = refl
map-snoc p xs (x ∷ ss) = ap (◌∷◌ (service x)) (map-snoc p xs ss)

count-snoc :
    (p : Service) (ss : List Service) (n m : ℕ)
    → n ≡ length ss + suc m
    → n ≡ length (ss ++ p ∷ []) + m
count-snoc p ss n m e = omega (arith, e, length-append ss (p ∷ []))

add_service-first :
    (p : Service)
    → add_service (some (replicate default_service_size null)) (some p) no_services
      ≡ ok (holding (p ∷ []) 9)
unfolding add_service store
add_service-first p = refl

add_behind-holding :
    (p : Service) (ss : List Service)
    → add_behind (some (replicate default_service_size null)) p (holding ss 0)
      ≡ ok (holding (ss ++ p ∷ []) 9)
unfolding add_behind
add_behind-holding p ss = rw (memcpy-services ss) (
    rw (store-services (service p) (replicate 9 null) ss) (λ i. ok (record {
      table = some (sym (map-snoc p (replicate 9 null) ss) i);
      counts = count-snoc p ss (length ss + 0 + 10) 9 (omega arith) i;
    })))

-- Ten slots that were never set, and the tables with one service and with two in such memory.
abbrev pub never_set : Option (List Slot)
never_set = some (replicate default_service_size wild)

abbrev pub first_of : Service → Services
first_of p = record { table = some (service p ∷ replicate 9 wild); counts = 10 }

abbrev pub second_of : Service → Service → Services
second_of p q = record {
  table = some (service p ∷ (replicate 9 wild ++ service q ∷ replicate 9 wild));
  counts = 20;
}

-- addService, by the memory that malloc gives, which the source does not clear. Where it is all
-- NULL, addService puts the service behind the others, into the first free slot, into a table that
-- it makes, or into one that it extends by ten slots. Where nothing was ever stored in it (and the
-- garbage is not NULL), the first service goes into the first slot, but the second one is not put
-- beside it: the table is extended, and nine slots that were never set stand between the two.
pub add_service-holding :
    (p q : Service) (ss : List Service) (free : ℕ)
    → (add_service (some (replicate default_service_size null)) (some p) no_services
        ≡ ok (holding (p ∷ []) 9))
      × (add_service (some (replicate default_service_size null)) (some p) (holding ss free)
          ≡ ok (holding (ss ++ p ∷ []) (free_behind free)))
      × (add_service never_set (some p) no_services ≡ ok (first_of p))
      × (add_service never_set (some q) (first_of p) ≡ ok (second_of p q))
unfolding add_service fill_slot add_behind memcpy store
add_service-holding p q ss zero =
    (add_service-first p, rw (fill_slot-full p ss) (add_behind-holding p ss), refl, refl)
add_service-holding p q ss (suc free) = (
  add_service-first p,
  rw (fill_slot-free p free ss) (λ i. ok (record {
    table = some (map service (ss ++ p ∷ []) ++ replicate free null);
    counts = count-snoc p ss (length ss + suc free) free refl i;
  })),
  refl,
  refl,
)

abbrev pub bytes_equal : Bytes → Bytes → Bool
bytes_equal [] [] = true
bytes_equal (x ∷ a) (y ∷ b) = x == y && bytes_equal a b
bytes_equal _ _ = false

pub bytes_equal_iff : (a b : Bytes) → (bytes_equal a b ≡ true) ↔ (a ≡ b)
bytes_equal_iff [] [] = ((λ e. refl), λ e. refl)
bytes_equal_iff [] (y ∷ b) = ((λ e. cc), λ e. cc)
bytes_equal_iff (x ∷ a) [] = ((λ e. cc), λ e. cc)
bytes_equal_iff (x ∷ a) (y ∷ b) = ground (arith, bytes_equal_iff a b)

-- The bytes of a C string.
abbrev pub NoNul : Bytes → Type 0
NoNul = All (λ x. x ≢ 0)

strcmp_eq-bytes_equal :
    (a b : Bytes) → NoNul a → NoNul b → strcmp_eq (with_nul a) (with_nul b) ≡ ok (bytes_equal a b)
unfolding strcmp_eq
strcmp_eq-bytes_equal [] [] h k = refl
strcmp_eq-bytes_equal [] (y ∷ b) h k = ground (arith, k.0)
strcmp_eq-bytes_equal (x ∷ a) [] h k = ground (arith, h.0)
strcmp_eq-bytes_equal (x ∷ a) (y ∷ b) h k = ground (arith, h.0, strcmp_eq-bytes_equal a b h.1 k.1)

pub string_at-with_nul : (a : Bytes) → NoNul a → string_at (with_nul a) ≡ ok a
unfolding string_at
string_at-with_nul [] h = refl
string_at-with_nul (x ∷ a) h = ground (arith, h.0, string_at-with_nul a h.1)

-- A service under a name.
abbrev pub named : Bytes × Service → Service
named (n, p) = record p { service_name = some (with_nul n) }

-- What stands behind the services of a table: its end, a NULL, or a slot that was never set.
pub data Behind : Type 0 where
  ends : Behind
  at_null at_wild : List Slot → Behind

abbrev pub behind_slots : Behind → List Slot
behind_slots ends = []
behind_slots (at_null xs) = null ∷ xs
behind_slots (at_wild xs) = wild ∷ xs

-- The first service under a name; where none has it, what the loop meets behind the services.
abbrev pub found : Bytes → List (Bytes × Service) → Behind → Run (Option Service)
found name [] ends = fault
found name [] (at_null xs) = ok none
found name [] (at_wild xs) = fault
found name (x ∷ ss) b =
    if bytes_equal x.0 name
    then ok (some (record (x.1) { service_name = some x.0 }))
    else found name ss b

copied : Option (ℕ × Service) → Run (Option Service)
copied none = ok none
copied (some (i, p)) = copy_service p >>= λ c. ok (some c)

find_position-found :
    (name : Bytes) (i : ℕ) (ss : List (Bytes × Service)) (b : Behind)
    → NoNul name
    → All (λ x. NoNul x.0) ss
    → (find_position (with_nul name) i (map service (map named ss) ++ behind_slots b) >>= copied)
      ≡ found name ss b
unfolding find_position copied copy_service
find_position-found name i [] ends k h = refl
find_position-found name i [] (at_null xs) k h = refl
find_position-found name i [] (at_wild xs) k h = refl
find_position-found name i ((n, p) ∷ ss) b k h =
    rw (strcmp_eq-bytes_equal n name h.0 k) (elim (Bool-cases (bytes_equal n name)) [
      | inl e ↦ rw e (rw (string_at-with_nul n h.0))
      | inr e ↦ rw e (find_position-found name (i + 1) ss b k h.1)
    ])

-- findServiceN gives a copy of the first service under the name. Where no service has it, the
-- answer is NULL if a NULL slot stands behind the services; the loop reads outside the array if the
-- table is full, and through an indeterminate pointer if the slot was never set. The copied name
-- has lost its NUL.
pub find_service_n-found :
    (name : Bytes) (ss : List (Bytes × Service)) (b : Behind) (counts : ℕ)
    → NoNul name
    → All (λ x. NoNul x.0) ss
    → find_service_n
        (with_nul name)
        (record { table = some (map service (map named ss) ++ behind_slots b); counts = counts })
      ≡ found name ss b
unfolding find_service_n copied
find_service_n-found name ss b counts k h = find_position-found name 0 ss b k h
