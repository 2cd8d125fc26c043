-- ===== src/Event/Flight.antt =====
-- tg_event.c: the node that head has given out, while events are pushed and until it is freed.
use mathlib.Core.List.{map-append}
use tgserver.Base.{
  ℤ, ℕ, ◌≡◌, ◌≢◌, sym, ap, subst, ◌∙◌, List, [], ◌∷◌, ◌++◌, Option, none, some, ok, Bytes,
  All-append,
}
use tgserver.Event.{TgEvent, Heap, update, Queue, load, push_event_to_queue, head, free_tg_event}
use tgserver.Event.Cells.{Event, content, Cell, Fresh, Holds, push_cell}
use tgserver.Event.Refine.{
  Represents, events, after_first, head_cell, after_first-Holds, after_first-heap, Holds-free,
}

-- Node a holds event x and is live, but no longer among the events `es` that wait.
pub record InFlight (q : Queue) (a : ℕ) (x : Event) (es : List Event) : Type 0 where
  pub cells : List Cell
  pub holds : Holds q cells
  pub waiting : events cells ≡ es
  pub apart : Fresh a cells
  pub node : TgEvent
  pub live : q.heap a ≡ some node
  pub says : content node ≡ x

-- head gives the oldest event out.
pub head-InFlight :
    (q : Queue) (x : Event) (es : List Event)
    → Represents q (x ∷ es)
    → (a : ℕ) × (q' : Queue) × (head q ≡ ok (some a, q')) × InFlight q' a x es
unfolding Represents
head-InFlight q x es ([], h, e) = cc
head-InFlight q x es (c ∷ cs, h, e) =
    let (n, at, l, k, ch, f) = h.chain in
    let rest = after_first q n.next in
    (
      c.0,
      rest,
      head_cell q c.0 n at l,
      record {
        cells = cs;
        holds = after_first-Holds q c cs h;
        waiting = cc;
        apart = f;
        node = n;
        live = ap (λ m. m c.0) (after_first-heap q n.next) ∙ l;
        says = k ∙ cc;
      },
    )

-- Pushing at a new address leaves the node that is out, and puts the event behind those that wait.
pub push-InFlight :
    (b : ℕ) (type_id : ℤ) (payload : Option Bytes) (q : Queue) (a : ℕ) (x : Event) (es : List Event)
    → InFlight q a x es
    → q.heap b ≡ none
    → (q' : Queue) × (push_event_to_queue b type_id payload q ≡ ok q')
      × InFlight q' a x (es ++ (type_id, payload) ∷ [])
push-InFlight b type_id payload q a x es f z =
    let (q', pushed, h', frame) = push_cell b type_id payload q f.cells f.holds z in
    let away : a ≢ b = λ same.
      let l : q.heap b ≡ some f.node = subst (λ y. q.heap y ≡ some f.node) same f.live in cc in
    (
      q',
      pushed,
      record {
        cells = f.cells ++ (b, (type_id, payload)) ∷ [];
        holds = h';
        waiting = map-append _ _ _ ∙ ap (λ l. l ++ (type_id, payload) ∷ []) f.waiting;
        apart =
            All-append _ f.cells ((b, (type_id, payload)) ∷ []) f.apart ((λ s. away (sym s)), tt);
        node = f.node;
        live = frame a f.apart away ∙ f.live;
        says = f.says;
      },
    )

-- The node that is out can be read and freed, and to free it leaves the events that wait.
pub free-InFlight :
    (q : Queue) (a : ℕ) (x : Event) (es : List Event)
    → InFlight q a x es
    → (n : TgEvent) × (h : Heap) × (load q.heap (some a) ≡ ok n)
      × (content n ≡ x)
      × (free_tg_event (some a) q.heap ≡ ok h)
      × Represents (record q { heap = h }) es
unfolding Represents free_tg_event
free-InFlight q a x es f = (
  f.node,
  update q.heap a none,
  rw (f.live, load),
  f.says,
  rw (f.live, load),
  (f.cells, Holds-free q a f.cells f.apart f.holds, f.waiting),
)
