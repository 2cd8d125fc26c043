-- ===== src/Process/Interleaving/Schedules.antt =====
-- tg_process.c: the loops of the two threads of a client process, __deamon_read and
-- __deamon_response, run by a schedule that says whose turn is next.
pub mod Rounds
mod Tests
use tgserver.Response.{NameArray}
use tgserver.Base.{
  inl, inr, ℕ, ◌≡◌, ◌≢◌, refl, sym, ap, subst, ◌∙◌, Bool, true, false, List, [], ◌∷◌, ◌++◌, Option,
  none, some, Run, ok, fault, ◌>>=◌, Bytes, bind-ok, if◌then◌else◌,
}
use tgserver.Context.{Client, State}
use tgserver.Event.{TgEvent, Heap}
use tgserver.Event.Cells.{Event}
use tgserver.Process.Threads.{send_thread_signal}
use tgserver.Reader.{read_data_from_cli, read_data_from_main_process}
use tgserver.Service.{Services, Call}
use tgserver.Process.Interleaving.{
  Phase, looks, waits, gone, holds, System, read_client, read_main, take_event, answer_event, Step,
  signal, woken, told, Reached, follows, reads_client, reads_main, takes, answers, wakes,
}

-- malloc for a schedule that names the address; one that is live is not given by malloc.
pub malloc : ℕ → Heap → Run ℕ
malloc a heap = elim (heap a) [ none ↦ ok a | some n ↦ fault ]

-- What select gives to __deamon_read: which of the socket and the pipe are ready, or -1, with
-- errno EINTR or another.
pub data Selected : Type 0 where
  ready : Bool → Bool → Selected
  interrupted failed : Selected

-- Whose turn it is. A turn of the reading thread is a round of its loop, with the fuel and the
-- memory of read_data_from_cli and two addresses for malloc; the answering thread takes an event,
-- handles one, or wakes up.
pub data Turn : Type 0 where
  reader : (fuel beyond a d : ℕ) → Selected → Turn
  taker answerer waker : Turn

-- The process, and whether its reading thread is still in the loop.
pub record Running : Type 0 where
  pub system : System
  pub reading : Bool

abbrev pub ended : Phase → Bool
ended looks = false
ended waits = false
ended (holds a) = false
ended gone = true

-- pthread_cond_wait returns.
abbrev pub woken_up : System → System
woken_up t = elim t.phase [
  | waits ↦ record t { phase = looks }
  | looks ↦ t
  | gone ↦ t
  | holds a ↦ t
]

module _ (plugin : ℕ → Bytes → Run (Option Bytes)) (stack : Bytes) (array : NameArray)
    (services : Services) (s : State) (c : Client) where
  -- A round of the loop in __deamon_read, and whether the thread goes on.
  pub deamon_read : (fuel beyond a d : ℕ) → Selected → System → Run (System × Bool)
  unfolding malloc
  deamon_read fuel beyond a d interrupted t = ok (t, false)
  deamon_read fuel beyond a d failed t = ok (t, true)
  deamon_read fuel beyond a d (ready client main) t = do
    let from_client = malloc a t.queue.heap >>= λ x. read_client stack c fuel beyond x t
    u ← if client then from_client else ok t
    let from_main = malloc d u.queue.heap >>= λ x. read_main stack c x u
    v ← if main then from_main else ok u
    ok (v, true)

  -- A turn in a process that has not ended.
  pub live_turn : Turn → Running → Run Running
  unfolding deamon_read
  live_turn taker r = do t ← take_event r.system; ok (record r { system = t })
  live_turn answerer r = do
    t ← answer_event plugin stack array services s c r.system
    ok (record r { system = t })
  live_turn waker r = ok (record r { system = woken_up r.system })
  live_turn (reader fuel beyond a d selected) r = do
    let round = deamon_read fuel beyond a d selected r.system
    q ← if r.reading then round else ok (r.system, false)
    ok (record { system = q.0; reading = q.1 })

  -- The turns of a schedule, one after the other.
  unfoldable pub run : List Turn → Running → Run Running
  unfolding live_turn
  run [] r = ok r
  run (w ∷ ws) r = do
    let next = live_turn w r
    q ← if ended r.system.phase then ok r else next
    run ws q
