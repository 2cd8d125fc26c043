-- ===== src/Event/Refine.antt =====
-- tg_event.c: the linked list implements a first-in-first-out queue of events.
use mathlib.Core.List.{map-append}
use tgserver.Base.{
  ℤ, ℕ, suc, ◌-◌, ◌≡◌, ◌≢◌, refl, sym, ap, ◌∙◌, List, [], ◌∷◌, ◌++◌, map, Option, none, some, Run,
  ok, Bytes, length, arith,
}
use tgserver.Event.{
  TgEvent, Heap, update, Queue, no_events, load, push_event_to_queue, head, free_tg_event,
  get_queue_size,
}
use tgserver.Event.Cells.{
  Event, content, Cell, Fresh, Chain, last_address, Holds, Chain-update, Chain-Fresh, push_cell,
}

abbrev pub events : List Cell → List Event
events = map (λ c. c.1)

-- The events that wait in the queue, oldest first: the nodes from the head pointer on hold them,
-- each node at an address of its own, the tail pointer is at the last node, and the counter counts
-- the nodes.
unfoldable pub Represents : Queue → List Event → Type 0
Represents q es = (cs : List Cell) × Holds q cs × (events cs ≡ es)

-- At the start the queue is empty.
pub no_events-Represents : Represents no_events []
unfolding Represents
no_events-Represents = ([], record { chain = refl; last = refl; counted = refl }, refl)

-- Pushing at a new address does not fault and puts the event behind all those that wait.
pub push-Represents :
    (a : ℕ) (type_id : ℤ) (payload : Option Bytes) (q : Queue) (es : List Event)
    → Represents q es
    → q.heap a ≡ none
    → (q' : Queue) × (push_event_to_queue a type_id payload q ≡ ok q')
      × Represents q' (es ++ (type_id, payload) ∷ [])
unfolding Represents
push-Represents a type_id payload q es (cs, h, e) z =
    let (q', pushed, h', frame) = push_cell a type_id payload q cs h z in
    (
      q',
      pushed,
      (
        cs ++ (a, (type_id, payload)) ∷ [],
        h',
        map-append _ _ _ ∙ ap (λ l. l ++ (type_id, payload) ∷ []) e,
      ),
    )

-- What push-Represents says, and that all other addresses that are not live stay so.
pub push-frame :
    (a : ℕ) (type_id : ℤ) (payload : Option Bytes) (q : Queue) (es : List Event)
    → Represents q es
    → q.heap a ≡ none
    → (q' : Queue) × (push_event_to_queue a type_id payload q ≡ ok q')
      × Represents q' (es ++ (type_id, payload) ∷ [])
      × ((x : ℕ) → q.heap x ≡ none → x ≢ a → q'.heap x ≡ none)
unfolding Represents
push-frame a type_id payload q es (cs, h, e) z =
    let (q', pushed, h', frame) = push_cell a type_id payload q cs h z in
    (
      q',
      pushed,
      (
        cs ++ (a, (type_id, payload)) ∷ [],
        h',
        map-append _ _ _ ∙ ap (λ l. l ++ (type_id, payload) ∷ []) e,
      ),
      (λ x y apart. frame x (Chain-Fresh q.heap x q.head_ptr cs y h.chain) apart ∙ y),
    )

-- The outcome of head on a queue that holds `es`.
abbrev pub Pops : Queue → List Event → Run (Option ℕ × Queue) → Type 0
Pops q [] r = r ≡ ok (none, q)
Pops q (e ∷ es) r =
    (a : ℕ) × (n : TgEvent) × (q' : Queue) × (r ≡ ok (some a, q'))
    × (q'.heap a ≡ some n)
    × (content n ≡ e)
    × Represents q' es
    × ((h : Heap) × (free_tg_event (some a) q'.heap ≡ ok h)
        × Represents (record q' { heap = h }) es)

length-map : (cs : List Cell) → length (events cs) ≡ length cs
length-map [] = refl
length-map (c ∷ cs) = ap suc (length-map cs)

pub after_first : Queue → Option ℕ → Queue
after_first q p =
    let rest = record q { head_ptr = p; queue_count = q.queue_count - 1 } in
    elim p [ none ↦ record rest { tail_ptr = none } | some b ↦ rest ]

pub head_cell :
    (q : Queue) (a : ℕ) (n : TgEvent)
    → q.head_ptr ≡ some a
    → q.heap a ≡ some n
    → head q ≡ ok (some a, after_first q n.next)
unfolding head after_first
head_cell q a n e l = (λ i. head (record q { head_ptr = e i })) ∙ rw (l, load)

after_last-Holds :
    (q : Queue) (p : Option ℕ) → p ≡ none → q.queue_count ≡ 1 → Holds (after_first q p) []
unfolding after_first
after_last-Holds q none e k = record { chain = refl; last = refl; counted = omega arith }
after_last-Holds q (some b) e k = cc

after_other-Holds :
    (q : Queue) (p : Option ℕ) (d : Cell) (cs : List Cell)
    → Chain q.heap p (d ∷ cs)
    → q.tail_ptr ≡ last_address (d ∷ cs)
    → q.queue_count ≡ suc (suc (length cs))
    → Holds (after_first q p) (d ∷ cs)
unfolding after_first
after_other-Holds q none d cs c l k = let e = c.1 in cc
after_other-Holds q (some b) d cs c l k = record { chain = c; last = l; counted = omega arith }

pub after_first-Holds :
    (q : Queue) (c : Cell) (cs : List Cell)
    → (h : Holds q (c ∷ cs)) → Holds (after_first q h.chain.0.next) cs
after_first-Holds q c [] h = after_last-Holds q h.chain.0.next h.chain.4 h.counted
after_first-Holds q c (d ∷ cs) h =
    after_other-Holds q h.chain.0.next d cs h.chain.4 h.last h.counted

pub after_first-heap : (q : Queue) (p : Option ℕ) → (after_first q p).heap ≡ q.heap
unfolding after_first
after_first-heap q none = refl
after_first-heap q (some b) = refl

-- To drop a node that is not in the list leaves the list.
pub Holds-free :
    (q : Queue) (a : ℕ) (cs : List Cell)
    → Fresh a cs
    → Holds q cs
    → Holds (record q { heap = update q.heap a none }) cs
Holds-free q a cs f h = record {
  chain = Chain-update q.heap a none q.head_ptr cs f h.chain;
  last = h.last;
  counted = h.counted;
}

-- head gives NULL on the empty queue, and otherwise the node of the oldest event, which it takes
-- out of the queue; the node is live, and to free it neither faults nor touches the events that
-- wait.
pub head-Pops : (q : Queue) (es : List Event) → Represents q es → Pops q es (head q)
unfolding Represents head free_tg_event
head-Pops q [] ([], h, e) =
    (λ i. head (record q { head_ptr = h.chain i }))
    ∙ (λ i. ok (none, record q { head_ptr = sym h.chain i }))
head-Pops q [] (c ∷ cs, h, e) = cc
head-Pops q (x ∷ es) ([], h, e) = cc
head-Pops q (x ∷ es) (c ∷ cs, h, e) =
    let (n, at, l, k, ch, f) = h.chain in
    let rest = after_first q n.next in
    let l' : rest.heap c.0 ≡ some n = ap (λ m. m c.0) (after_first-heap q n.next) ∙ l in
    let h' = after_first-Holds q c cs h in
    let tail : events cs ≡ es = cc in
    (
      c.0,
      n,
      rest,
      head_cell q c.0 n at l,
      l',
      k ∙ cc,
      (cs, h', tail),
      (
        update rest.heap c.0 none,
        rw (l', free_tg_event, load),
        (cs, Holds-free rest c.0 cs f h', tail),
      ),
    )

-- The counter is the number of the events that wait.
pub get_queue_size-length :
    (q : Queue) (es : List Event) → Represents q es → get_queue_size q ≡ length es
unfolding Represents get_queue_size
get_queue_size-length q es (cs, h, e) = h.counted ∙ sym (length-map cs) ∙ ap length e
