-- ===== src/Event/Cells.antt =====
-- tg_event.c: the nodes of the linked list as a list of cells, and the linking of a new node.
use mathlib.Core.Path.{fun_ext}
use tgserver.Base.{
  ℤ, ℕ, ◌+◌, ◌≡◌, ◌≢◌, refl, sym, ap, subst, ◌∙◌, List, [], ◌∷◌, ◌++◌, Option, none, some, ok,
  Bytes, All, length, length-append, arith,
}
use tgserver.Event.{
  TgEvent, Heap, update, Queue, set_next, new_event, link_event, push_event_to_queue,
}

-- What an event says: its type and its parameters.
abbrev pub Event : Type 0
Event = ℤ × Option Bytes

abbrev pub content : TgEvent → Event
content n = (n.type_id, n.payload)

-- An address with the event of its node.
abbrev pub Cell : Type 0
Cell = ℕ × Event

abbrev pub Fresh : ℕ → List Cell → Type 0
Fresh a = All (λ c. c.0 ≢ a)

-- The nodes from pointer p on, up to NULL.
abbrev pub Chain : Heap → Option ℕ → List Cell → Type 0
Chain h p [] = p ≡ none
Chain h p (c ∷ cs) =
    (n : TgEvent) × (p ≡ some c.0)
    × (h c.0 ≡ some n)
    × (content n ≡ c.1)
    × Chain h n.next cs
    × Fresh c.0 cs

abbrev pub last_address : List Cell → Option ℕ
last_address [] = none
last_address (c ∷ []) = some c.0
last_address (c ∷ d ∷ cs) = last_address (d ∷ cs)

pub record Holds (q : Queue) (cs : List Cell) : Type 0 where
  pub chain : Chain q.heap q.head_ptr cs
  pub last : q.tail_ptr ≡ last_address cs
  pub counted : q.queue_count ≡ length cs

pub update_self : (h : Heap) (a : ℕ) (v : Option TgEvent) → update h a v a ≡ v
update_self h a v = ground arith

update_other : (h : Heap) (a b : ℕ) (v : Option TgEvent) → b ≢ a → update h a v b ≡ h b
update_other h a b v d = ground arith

pub Chain-update :
    (h : Heap) (a : ℕ) (v : Option TgEvent) (p : Option ℕ) (cs : List Cell)
    → Fresh a cs
    → Chain h p cs
    → Chain (update h a v) p cs
Chain-update h a v p [] f c = c
Chain-update h a v p (x ∷ cs) f (n, e, l, k, c, g) =
    (n, e, update_other h a x.0 v f.0 ∙ l, k, Chain-update h a v n.next cs f.1 c, g)

-- An address that is not live stands nowhere in the list.
pub Chain-Fresh :
    (h : Heap) (a : ℕ) (p : Option ℕ) (cs : List Cell) → h a ≡ none → Chain h p cs → Fresh a cs
Chain-Fresh h a p [] z c = tt
Chain-Fresh h a p (x ∷ cs) z (n, e, l, k, c, g) = (apart, Chain-Fresh h a n.next cs z c)
  where
    apart : x.0 ≢ a
    apart same = let l' : h a ≡ some n = subst (λ y. h y ≡ some n) same l in cc

last_address-snoc : (cs : List Cell) (c : Cell) → last_address (cs ++ c ∷ []) ≡ some c.0
last_address-snoc [] c = refl
last_address-snoc (d ∷ []) c = refl
last_address-snoc (d ∷ e ∷ cs) c = last_address-snoc (e ∷ cs) c

-- What is true of the heap once the last node of `cs` points to b.
record Linked (h : Heap) (b : ℕ) (p : Option ℕ) (cs : List Cell) (e : Event) : Type 0 where
  heap : Heap
  sets : set_next h (last_address cs) (some b) ≡ ok heap
  frame : (x : ℕ) → Fresh x cs → heap x ≡ h x
  new_last : heap b ≡ h b
  chain : Chain heap p (cs ++ (b, e) ∷ [])

Fresh-snoc :
    (a b : ℕ) (e : Event) (cs : List Cell) → Fresh a cs → b ≢ a → Fresh a (cs ++ (b, e) ∷ [])
Fresh-snoc a b e [] f d = (d, tt)
Fresh-snoc a b e (c ∷ cs) f d = (f.0, Fresh-snoc a b e cs f.1 d)

Chain-Linked :
    (h : Heap) (b : ℕ) (nb : TgEvent) (p : Option ℕ) (c : Cell) (cs : List Cell)
    → Chain h p (c ∷ cs)
    → Fresh b (c ∷ cs)
    → h b ≡ some nb
    → nb.next ≡ none
    → Linked h b p (c ∷ cs) (content nb)
unfolding set_next
Chain-Linked h b nb p c [] (n, e, l, k, z, g) f lb nx = record {
  heap = update h c.0 (some (record n { next = some b }));
  sets = rw (l, set_next);
  frame = λ x fx. update_other h c.0 x _ (λ s. fx.0 (sym s));
  new_last = update_other h c.0 b _ (λ s. f.0 (sym s));
  chain = (
    record n { next = some b },
    e,
    update_self h c.0 _,
    k,
    (nb, refl, update_other h c.0 b _ (λ s. f.0 (sym s)) ∙ lb, refl, nx, tt),
    ((λ s. f.0 (sym s)), tt),
  );
}
Chain-Linked h b nb p c (d ∷ cs) (n, e, l, k, z, g) f lb nx =
    let rest = Chain-Linked h b nb n.next d cs z f.1 lb nx in
    record {
      heap = rest.heap;
      sets = rest.sets;
      frame = λ x fx. rest.frame x fx.1;
      new_last = rest.new_last;
      chain = (
        n,
        e,
        rest.frame c.0 g ∙ l,
        k,
        rest.chain,
        Fresh-snoc c.0 b (content nb) (d ∷ cs) g (λ s. f.0 (sym s)),
      );
    }

update_same : (h : Heap) (a : ℕ) (n : TgEvent) → h a ≡ some n → update h a (some n) ≡ h
update_same h a n l = fun_ext λ x. ground arith

set_next-same :
    (h : Heap) (a : ℕ) (n : TgEvent)
    → h a ≡ some n
    → n.next ≡ none
    → set_next h (some a) none ≡ ok h
unfolding set_next
set_next-same h a n l e =
    rw (l, set_next)
      (ap ok
        (ap (λ m. update h a (some m)) (λ i. record n { next = sym e i }) ∙ update_same h a n l))

push_behind :
    (a : ℕ) (type_id : ℤ) (payload : Option Bytes) (first : ℕ) (tail : Option ℕ) (q : Queue)
    (h : Heap)
    → set_next (update q.heap a (some (new_event type_id payload))) tail (some a) ≡ ok h
    → h a ≡ some (new_event type_id payload)
    → push_event_to_queue a type_id payload (record q { head_ptr = some first; tail_ptr = tail })
      ≡ ok (record {
        heap = h;
        head_ptr = some first;
        tail_ptr = some a;
        queue_count = q.queue_count + 1;
      })
unfolding push_event_to_queue
push_behind a type_id payload first tail q h e l =
    rw e (rw (set_next-same h a (new_event type_id payload) l refl))

-- Pushing puts a cell behind the others, and changes no node that is outside the list.
pub push_cell :
    (a : ℕ) (type_id : ℤ) (payload : Option Bytes) (q : Queue) (cs : List Cell)
    → Holds q cs
    → q.heap a ≡ none
    → (q' : Queue) × (push_event_to_queue a type_id payload q ≡ ok q')
      × Holds q' (cs ++ (a, (type_id, payload)) ∷ [])
      × ((x : ℕ) → Fresh x cs → x ≢ a → q'.heap x ≡ q.heap x)
unfolding push_event_to_queue
push_cell a type_id payload q [] h z =
    let n = new_event type_id payload in
    let heap = update q.heap a (some n) in
    let here = update_self q.heap a (some n) in
    (
      record { heap = heap; head_ptr = some a; tail_ptr = some a; queue_count = q.queue_count + 1 },
      rw (h.chain, link_event) (rw (set_next-same heap a n here refl)),
      record {
        chain = (n, refl, here, refl, refl, tt);
        last = refl;
        counted = omega (arith, h.counted);
      },
      λ x f d. update_other q.heap a x (some n) d,
    )
push_cell a type_id payload q (c ∷ cs) h z =
    let n = new_event type_id payload in
    let chain = subst (λ p. Chain q.heap p (c ∷ cs)) h.chain.1 h.chain in
    let f = Chain-Fresh q.heap a (some c.0) (c ∷ cs) z chain in
    let here = update_self q.heap a (some n) in
    let l =
      Chain-Linked (update q.heap a (some n)) a n (some c.0) c cs
        (Chain-update q.heap a (some n) (some c.0) (c ∷ cs) f chain) f here refl in
    (
      record {
        heap = l.heap;
        head_ptr = some c.0;
        tail_ptr = some a;
        queue_count = q.queue_count + 1;
      },
      (λ i.
            push_event_to_queue a type_id payload
              (record q { head_ptr = h.chain.1 i; tail_ptr = h.last i }))
          ∙ push_behind a type_id payload c.0 (last_address (c ∷ cs)) q l.heap l.sets
              (l.new_last ∙ here),
      record {
        chain = l.chain;
        last = sym (last_address-snoc (c ∷ cs) (a, content n));
        counted = omega (arith, h.counted, length-append (c ∷ cs) ((a, (type_id, payload)) ∷ []));
      },
      λ x fx d. l.frame x fx ∙ update_other q.heap a x (some n) d,
    )
