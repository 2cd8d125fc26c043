-- ===== src/Process/Threads.antt =====
-- tg_process.c: one round of the thread that answers, and what the reading thread does with an
-- event. Both run under the lock of the queue, but for the handler.
use tgserver.Base.{ℤ, refl, ◌≡◌, ◌∙◌, List, [], ◌∷◌, ℕ, Option, none, some, Run, ok, ◌>>=◌, Bytes}
use tgserver.Context.{Client, State}
use tgserver.Event.{Queue, load, push_event_to_queue, head, free_tg_event}
use tgserver.Event.Refine.{Represents, head-Pops}
use tgserver.Event.Cells.{Event}
use tgserver.Service.{Services}
use tgserver.Response.{NameArray, Handled, handle_response}

-- __send_thread_signal; `a` is the address of the new node.
abbrev pub send_thread_signal : ℕ → ℤ → Option Bytes → Queue → Run Queue
send_thread_signal a type_id payload q = push_event_to_queue a type_id payload q

-- The thread waits for an event, or has handled one. Where the handler exits, nothing follows.
pub data Round : Type 0 where
  waits : Queue → Round
  handled : Handled → Queue → Round

module _ (do_request : ℕ → Bytes → Run (Option Bytes)) (stack : Bytes) (array : NameArray) where
  -- The body of the loop of __deamon_response.
  unfoldable pub deamon_response : Services → State → Client → Queue → Run Round
  deamon_response services s c q = do
    r ← head q
    elim r.0 [
      | none ↦ ok (waits (r.1))
      | some a ↦ do
        ev ← load r.1.heap (some a)
        h ←
            handle_response do_request stack array services s c
              (some (record { type_id = ev.type_id; payload = ev.payload }))
        freed ← free_tg_event (some a) r.1.heap
        ok (handled h (record (r.1) { heap = freed }))
    ]

  -- A round of the answering thread on a queue with events hands the oldest one to the handler and,
  -- if the handler ends without a fault, leaves the queue of the others; on the empty queue it
  -- waits and changes nothing.
  pub deamon_response-oldest :
      (services : Services) (s : State) (c : Client) (q : Queue) (type_id : ℤ)
      (payload : Option Bytes) (es : List Event) (h : Handled)
      → handle_response do_request stack array services s c
          (some (record { type_id = type_id; payload = payload }))
        ≡ ok h
      → (Represents q [] → deamon_response services s c q ≡ ok (waits q))
        × (Represents q ((type_id, payload) ∷ es)
            → (r : Queue) × (deamon_response services s c q ≡ ok (handled h r)) × Represents r es)
  unfolding deamon_response
  deamon_response-oldest services s c q type_id payload es h e = (
    (λ r. rw (head-Pops q [] r) refl),
    λ r.
        let (a, n, q', popped, l, k, r', (h', freed, r'')) =
          head-Pops q ((type_id, payload) ∷ es) r in
        let at : handle_response do_request stack array services s c
              (some (record { type_id = n.type_id; payload = n.payload }))
            ≡ ok h =
          (λ i.
            handle_response do_request stack array services s c
              (some (record { type_id = (k i).0; payload = (k i).1 })))
          ∙ e in
        (record q' { heap = h' }, rw (popped, load, l) (rw (at, freed) refl), r''),
  )
