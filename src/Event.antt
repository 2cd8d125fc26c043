-- ===== src/Event.antt =====
-- tg_event.c: the event queue of a client process, a linked list on the heap with a head and a tail
-- pointer. The heap gives the live nodes by their addresses; the address that malloc returns is an
-- argument. Access through NULL or to memory that is not live is a fault, and so is a second free.
-- The counter is a natural number; it never falls below 0 (Event.Refine).
pub mod Cells
pub mod Refine
pub mod Flight
mod Tests
use tgserver.Base.{
  ℕ, zero, suc, ◌+◌, ◌-◌, Option, none, some, ◌==◌, if◌then◌else◌, ℤ, minus_one, Run, ok, fault,
  ◌>>=◌, Bytes,
}

-- struct TGEvent. The type is one of the MSG_TYPE_ numbers, and `payload` is the field `data`.
pub record TgEvent : Type 0 where
  pub token : ℤ
  pub type_id : ℤ
  pub payload : Option Bytes
  pub next : Option ℕ

abbrev pub Heap : Type 0
Heap = ℕ → Option TgEvent

abbrev pub update : Heap → ℕ → Option TgEvent → Heap
update h a v b = if a == b then v else h b

pub record Queue : Type 0 where
  pub heap : Heap
  pub head_ptr : Option ℕ
  pub tail_ptr : Option ℕ
  pub queue_count : ℕ

-- The static variables as the program starts.
abbrev pub no_events : Queue
no_events = record { heap = λ a. none; head_ptr = none; tail_ptr = none; queue_count = 0 }

-- *p, for reading.
abbrev pub load : Heap → Option ℕ → Run TgEvent
load h none = fault
load h (some a) = elim (h a) [ none ↦ fault | some n ↦ ok n ]

-- p->pNext = v.
pub set_next : Heap → Option ℕ → Option ℕ → Run Heap
set_next h none v = fault
set_next h (some a) v = elim (h a) [
  | none ↦ fault
  | some n ↦ ok (update h a (some (record n { next = v })))
]

new_event : ℤ → Option Bytes → TgEvent
new_event type_id payload = record {
  token = minus_one;
  type_id = type_id;
  payload = payload;
  next = none;
}

-- The if of pushEventToQueue, behind which pEv is the tail.
link_event : ℕ → Queue → Run Queue
unfolding set_next
link_event a q = elim q.head_ptr [
  | none ↦ ok (record q { head_ptr = some a; tail_ptr = some a })
  | some first ↦ do
    h ← set_next q.heap q.tail_ptr (some a)
    ok (record q { heap = h; tail_ptr = some a })
]

-- `a` is the address of the new node.
unfoldable pub push_event_to_queue : ℕ → ℤ → Option Bytes → Queue → Run Queue
unfolding link_event new_event set_next
push_event_to_queue a type_id payload q = do
  linked ← link_event a (record q { heap = update q.heap a (some (new_event type_id payload)) })
  h ← set_next linked.heap linked.tail_ptr none
  ok (record linked { heap = h; queue_count = linked.queue_count + 1 })

-- The pointer that is returned, NULL where the queue is empty, and the queue behind it. The node
-- stays live: the caller frees it.
unfoldable pub head : Queue → Run (Option ℕ × Queue)
head q = elim q.head_ptr [
  | none ↦ ok (none, q)
  | some a ↦ do
    n ← load q.heap (some a)
    let rest = record q { head_ptr = n.next; queue_count = q.queue_count - 1 }
    ok (some a, elim n.next [ none ↦ record rest { tail_ptr = none } | some b ↦ rest ])
]

unfoldable pub get_queue_size : Queue → ℕ
get_queue_size q = q.queue_count

unfoldable pub free_tg_event : Option ℕ → Heap → Run Heap
free_tg_event none h = ok h
free_tg_event (some a) h = do n ← load h (some a); ok (update h a none)

-- The loop of cancelAllEvent on fuel: a fault where the fuel runs out (Event.Refine has that one
-- round more than the events in the queue are enough).
unfoldable pub cancel_all_event : ℕ → Queue → Run Queue
cancel_all_event zero q = fault
cancel_all_event (suc fuel) q = do
  popped ← head q
  elim popped.0 [
    | none ↦ ok popped.1
    | some a ↦ do
      h ← free_tg_event (some a) popped.1.heap
      cancel_all_event fuel (record (popped.1) { heap = h })
  ]
