-- ===== src/Process/Interleaving.antt =====
-- tg_process.c: the two threads of a client process as steps on what they share, the queue of
-- events. __deamon_read pushes what it reads from the socket and from the main process, each push
-- under the lock; __deamon_response takes the oldest event under the lock, and handles and frees it
-- outside. The process may change between the threads at every point where neither of them has the
-- lock. `fuel` and `behind` are those of read_data_from_cli, `plugin`, `stack` and `array` those of
-- handle_response.
pub mod Sound
pub mod Orders
pub mod Progress
pub mod Serves
pub mod Farewell
pub mod Schedules
mod Tests
use tgserver.Base.{
  ℕ, zero, suc, ◌≡◌, ◌≢◌, List, [], ◌∷◌, ◌++◌, Option, none, some, if◌then◌else◌, ℤ, pos, Run, ok,
  fault, ◌>>=◌, Bytes,
}
use tgserver.Context.{Client, State}
use tgserver.Context.Signals.{is_minus_one}
use tgserver.Event.{Queue, no_events, load, head, free_tg_event}
use tgserver.Event.Cells.{Event, content}
use tgserver.Service.{Services, Call, init_all_services}
use tgserver.Reader.{Stream, Outcome, read_data_from_cli, read_data_from_main_process}
use tgserver.Response.{NameArray, Handled, After, returns, exits, handle_response}
use tgserver.Process.Threads.{send_thread_signal}

-- The thread that answers is about to look at the queue, waits for the signal, has the event at an
-- address in its hands, or has ended the process.
pub data Phase : Type 0 where
  looks waits gone : Phase
  holds : ℕ → Phase

-- The queue, the two streams that the reading thread looks at, and where the answering thread
-- stands. The last two record the events pushed so far, and those handled with what their handlers
-- did.
pub record System : Type 0 where
  pub queue : Queue
  pub phase : Phase
  pub socket : Stream
  pub pipe : Stream
  pub pushed : List Event
  pub log : List (Event × Handled)

-- MSG_TYPE_CLIENT_INIT, without data.
abbrev pub client_init : Event
client_init = (pos 1004, none)

-- __do_request up to the first push of the reading thread, at the address a; before that, there is
-- nothing to take. The calls are those of initAllServices.
unfoldable pub do_request : ℕ → Services → Stream → Stream → Run (List Call × System)
do_request a services socket pipe = do
  calls ← init_all_services services
  q ← send_thread_signal a client_init.0 client_init.1 no_events
  ok (
    calls,
    record {
      queue = q;
      phase = looks;
      socket = socket;
      pipe = pipe;
      pushed = client_init ∷ [];
      log = [];
    },
  )

-- The event that a call of the reader hands over: msgType and pData, which are 0 and NULL at first.
abbrev pub told : Outcome → Option Event
told o =
    let t : ℤ = elim o.type_id [ none ↦ pos 0 | some t ↦ t ] in
    if is_minus_one o.code then none else some (t, o.payload)

-- pthread_cond_signal: a thread that waits is about to look at the queue again.
abbrev pub woken : Phase → Phase
woken waits = looks
woken looks = looks
woken gone = gone
woken (holds a) = holds a

-- if(...!=-1) __send_thread_signal(...), with the address of the new node.
unfoldable pub signal : ℕ → Option Event → System → Run System
signal a none t = ok t
signal a (some e) t = do
  q ← send_thread_signal a e.0 e.1 t.queue
  ok (record t { queue = q; phase = woken t.phase; pushed = t.pushed ++ e ∷ [] })

module _ (stack : Bytes) (c : Client) where
  -- The two tests of FD_ISSET in the loop of __deamon_read.
  unfoldable pub read_client : ℕ → ℕ → ℕ → System → Run System
  read_client fuel behind a t = do
    o ← read_data_from_cli fuel behind (some c) t.socket
    signal a (told o) (record t { socket = o.rest })

  unfoldable pub read_main : ℕ → System → Run System
  read_main a t = do
    o ← read_data_from_main_process stack (some c) t.pipe
    signal a (told o) (record t { pipe = o.rest })

-- The part of __deamon_response under the lock; on an empty queue it waits.
pub take_at : Phase → System → Run System
take_at looks t = do
  r ← head t.queue
  ok (elim r.0 [
    | none ↦ record t { phase = waits }
    | some a ↦ record t { queue = r.1; phase = holds a }
  ])
take_at (holds a) t = ok t
take_at waits t = ok t
take_at gone t = ok t

unfoldable pub take_event : System → Run System
unfolding take_at
take_event t = take_at t.phase t

-- What follows the handler: the event is freed, unless the handler has ended the process.
pub finish : ℕ → After → System → Run System
finish a exits t = ok (record t { phase = gone })
finish a (returns r) t = do
  heap ← free_tg_event (some a) t.queue.heap
  ok (record t { queue = record (t.queue) { heap = heap }; phase = looks })

module _ (plugin : ℕ → Bytes → Run (Option Bytes)) (stack : Bytes) (array : NameArray)
    (services : Services) (s : State) (c : Client) where
  abbrev pub answer : Event → Run Handled
  answer e =
      handle_response plugin stack array services s c
        (some (record { type_id = e.0; payload = e.1 }))

  -- The part of __deamon_response behind the lock.
  pub answer_at : Phase → System → Run System
  unfolding finish
  answer_at looks t = ok t
  answer_at waits t = ok t
  answer_at gone t = ok t
  answer_at (holds a) t = do
    n ← load t.queue.heap (some a)
    h ← answer (content n)
    finish a h.after (record t { log = t.log ++ (content n, h) ∷ [] })

  unfoldable pub answer_event : System → Run System
  unfolding answer_at
  answer_event t = answer_at t.phase t

  -- Rounds of __deamon_response with nothing in between.
  unfoldable pub respond : ℕ → System → Run System
  unfolding answer_event take_event
  respond zero t = ok t
  respond (suc n) t = do r ← take_event t; v ← answer_event r; respond n v

  -- A turn of one of the threads in a process that has not ended. malloc gives an address that is
  -- not live. pthread_cond_wait may return without a signal.
  pub data Step (t u : System) : Type 0 where
    reads_client :
        (fuel beyond a : ℕ)
        → t.phase ≢ gone
        → t.queue.heap a ≡ none
        → read_client stack c fuel beyond a t ≡ ok u
        → Step t u
    reads_main :
        (a : ℕ) → t.phase ≢ gone → t.queue.heap a ≡ none → read_main stack c a t ≡ ok u → Step t u
    takes : take_event t ≡ ok u → Step t u
    answers : answer_event t ≡ ok u → Step t u
    wakes : t.phase ≡ waits → u ≡ record t { phase = looks } → Step t u

  -- The states that the process comes to, and the calls with which it began.
  pub data Reached (calls : List Call) : System → Type 0 where
    starts :
        {t : System} (a : ℕ) (socket pipe : Stream)
        → do_request a services socket pipe ≡ ok (calls, t)
        → Reached calls t
    follows : {t u : System} → Reached calls t → Step t u → Reached calls u
