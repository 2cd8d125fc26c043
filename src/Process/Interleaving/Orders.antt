-- ===== src/Process/Interleaving/Orders.antt =====
-- tg_process.c: what holds in every state that the two threads of a client process come to.
use tgserver.Base.{
  append-nil, ℕ, ◌≡◌, ◌≢◌, refl, sym, ap, subst, ◌∙◌, List, [], ◌∷◌, ◌++◌, map, Option, none, some,
  pos, Run, ok, bind-ok, ◌>>=◌, Bytes, All,
}
use tgserver.Context.{Client, State}
use tgserver.Event.{Queue, no_events, load}
use tgserver.Event.Cells.{Event, content}
use tgserver.Event.Refine.{Represents, no_events-Represents, push-Represents}
use tgserver.Event.Flight.{free-InFlight}
use tgserver.Reader.{Stream, read_data_from_cli, read_data_from_main_process}
use tgserver.Service.{Services, Call, init_all_services}
use tgserver.Response.{NameArray, Handled, returns, call}
use tgserver.Response.Outcomes.{handle_response-inits}
use tgserver.Process.Threads.{send_thread_signal}
use tgserver.Process.Interleaving.Sound.{
  IsSound, signal-IsSound, take_none, take_first, logged, finish-IsSound, at_hand, Keeps,
  handled_events,
}
use tgserver.Process.Interleaving.{
  Phase, looks, waits, gone, wakes, holds, System, client_init, do_request, told, signal,
  read_client, read_main, take_at, take_event, finish, answer, answer_at, answer_event,
  reads_client, reads_main, takes, answers, Reached, starts, follows,
}

module _ (plugin : ℕ → Bytes → Run (Option Bytes)) (stack : Bytes) (array : NameArray)
    (services : Services) (s : State) (c : Client) where
  abbrev Sound : System → Type 0
  Sound = IsSound plugin stack array services s c

  -- A run has one end.
  same-IsSound : (r : Run System) (t u : System) → r ≡ ok t → r ≡ ok u → Sound t → Sound u
  same-IsSound r t u d e h = let same : t ≡ u = cc in subst Sound same h

  looks-IsSound :
      (t u : System) (h : Sound t) (es : List Event)
      → h.left ≡ es
      → t.phase ≡ looks
      → take_at looks t ≡ ok u
      → Sound u
  looks-IsSound t u h [] l e k =
      let (done, d, none_left) = take_none plugin stack array services s c t h l e in
      same-IsSound (take_at looks t) (record t { phase = waits }) u done k d
  looks-IsSound t u h (x ∷ es) l e k =
      let (a, v, done, kept, held, d, left) =
        take_first plugin stack array services s c t h x es l e in
      same-IsSound (take_at looks t) v u done k d

  take-IsSound : (p : Phase) (t u : System) → t.phase ≡ p → Sound t → take_at p t ≡ ok u → Sound u
  unfolding take_at
  take-IsSound looks t u e h k = looks-IsSound t u h h.left refl e k
  take-IsSound (holds a) t u e h k = same-IsSound (ok t) t u refl k h
  take-IsSound gone t u e h k = same-IsSound (ok t) t u refl k h
  take-IsSound waits t u e h k = same-IsSound (ok t) t u refl k h

  answer-IsSound :
      (p : Phase) (t u : System)
      → t.phase ≡ p
      → Sound t
      → answer_at plugin stack array services s c p t ≡ ok u
      → Sound u
  unfolding answer_at
  answer-IsSound looks t u e h k = same-IsSound (ok t) t u refl k h
  answer-IsSound gone t u e h k = same-IsSound (ok t) t u refl k h
  answer-IsSound waits t u e h k = same-IsSound (ok t) t u refl k h
  answer-IsSound (holds a) t u e h k =
      let (x, es, l, f) = at_hand plugin stack array services s c t h a e in
      let (n, heap, loaded, says, freed, rep) = free-InFlight t.queue a x es f in
      let (m, again, after_load) =
        bind-ok (load t.queue.heap (some a))
          (λ y. answer plugin stack array services s c (content y) >>= λ j.
            finish a j.after (logged plugin stack array services s c t (content y) j))
          u k in
      let same : n ≡ m = cc in
      let said : content m ≡ x = ap content (sym same) ∙ says in
      let (j, done, ends) =
        bind-ok (answer plugin stack array services s c (content m))
          (λ j. finish a j.after (logged plugin stack array services s c t (content m) j)) u
          after_load in
      let (v, finished, kept, d, tail, back) =
        finish-IsSound plugin stack array services s c t h a x es j l f
          (ap (answer plugin stack array services s c) (sym said) ∙ done) j.after in
      let ends' : finish a j.after (logged plugin stack array services s c t x j) ≡ ok u =
        subst (λ y. finish a j.after (logged plugin stack array services s c t y j) ≡ ok u) said
          ends in
      same-IsSound (finish a j.after (logged plugin stack array services s c t x j)) v u finished
        ends' d

  read-IsSound :
      (a : ℕ) (o : Option Event) (t u : System)
      → Sound t
      → t.phase ≢ gone
      → t.queue.heap a ≡ none
      → signal a o t ≡ ok u
      → Sound u
  read-IsSound a o t u h g z e =
      let (v, done, d) = signal-IsSound plugin stack array services s c a o t h g z in
      same-IsSound (signal a o t) v u done e d

  begun : Queue → Stream → Stream → System
  begun q socket pipe = record {
    queue = q;
    phase = looks;
    socket = socket;
    pipe = pipe;
    pushed = client_init ∷ [];
    log = [];
  }

  do_request-begun :
      (a : ℕ) (socket pipe : Stream) (calls : List Call) (t : System)
      → do_request a services socket pipe ≡ ok (calls, t)
      → (q : Queue) × (init_all_services services ≡ ok calls)
        × (send_thread_signal a client_init.0 client_init.1 no_events ≡ ok q)
        × (begun q socket pipe ≡ t)
  unfolding do_request begun
  do_request-begun a socket pipe calls t e =
      let (made, called, more) =
        bind-ok (init_all_services services)
          (λ calls. send_thread_signal a client_init.0 client_init.1 no_events >>= λ q.
            ok (calls, begun q socket pipe))
          (calls, t) e in
      let (q, pushed, last) =
        bind-ok (send_thread_signal a client_init.0 client_init.1 no_events)
          (λ q. ok (made, begun q socket pipe)) (calls, t) more in
      let same : made ≡ calls = cc in (q, called ∙ ap ok same, pushed, cc)

  start-IsSound :
      (a : ℕ) (socket pipe : Stream) (calls : List Call) (t : System)
      → do_request a services socket pipe ≡ ok (calls, t)
      → Sound t
  unfolding begun
  start-IsSound a socket pipe calls t e =
      let (q, called, pushed, same) = do_request-begun a socket pipe calls t e in
      let (r, pushed', rep) =
        push-Represents a client_init.0 client_init.1 no_events [] no_events-Represents refl in
      let one : r ≡ q = cc in
      subst Sound (ap (λ y. begun y socket pipe) one ∙ same) (record {
        left = client_init ∷ [];
        order = refl;
        memory = rep;
        answered = tt;
        first = ([], refl);
      })

  wakes-IsSound : (t : System) → Sound t → t.phase ≡ waits → Sound (record t { phase = looks })
  wakes-IsSound t h e =
      let k : Keeps waits t.queue h.left = subst (λ p. Keeps p t.queue h.left) e h.memory in
      record {
        left = h.left;
        order = h.order;
        memory = k.0;
        answered = h.answered;
        first = h.first;
      }

  -- In every order in which the two threads take turns, the events that have been handled, the one
  -- at hand and those that wait are, in this order, the events that were pushed, so that none is
  -- lost, handled twice or overtaken, and the event of the initialization is the first; the node at
  -- hand is live and lies outside the queue; and each handler that the log has was run on its
  -- event.
  pub Reached-IsSound :
      (calls : List Call) (t : System) → Reached plugin stack array services s c calls t → Sound t
  unfolding read_client read_main take_event answer_event
  Reached-IsSound calls t (starts a socket pipe e) = start-IsSound a socket pipe calls t e
  Reached-IsSound calls t (follows {t = r} before step) =
      let h = Reached-IsSound calls r before in
      elim step [
        | reads_client fuel beyond a g z e ↦
            let (o, read, e') =
              bind-ok (read_data_from_cli fuel beyond (some c) r.socket)
                (λ o. signal a (told o) (record r { socket = o.rest })) t e in
            read-IsSound a (told o) (record r { socket = o.rest }) t
              (record {
                left = h.left;
                order = h.order;
                memory = h.memory;
                answered = h.answered;
                first = h.first;
              })
              g z e'
        | reads_main a g z e ↦
            let (o, read, e') =
              bind-ok (read_data_from_main_process stack (some c) r.pipe)
                (λ o. signal a (told o) (record r { pipe = o.rest })) t e in
            read-IsSound a (told o) (record r { pipe = o.rest }) t
              (record {
                left = h.left;
                order = h.order;
                memory = h.memory;
                answered = h.answered;
                first = h.first;
              })
              g z e'
        | takes e ↦ take-IsSound r.phase r t refl h e
        | answers e ↦ answer-IsSound r.phase r t refl h e
        | wakes p e ↦ subst Sound (sym e) (wakes-IsSound r h p)
      ]

  Reached-calls :
      (calls : List Call) (t : System)
      → Reached plugin stack array services s c calls t
      → init_all_services services ≡ ok calls
  Reached-calls calls t (starts a socket pipe e) = (do_request-begun a socket pipe calls t e).1
  Reached-calls calls t (follows {t = r} before step) = Reached-calls calls r before

  -- init of every service is called twice for a connection: the calls with which the process begins
  -- are made once more by the first event that is handled.
  pub Reached-inits_twice :
      (calls : List Call) (t : System) (r : Event × Handled) (rs : List (Event × Handled))
      → Reached plugin stack array services s c calls t
      → t.log ≡ r ∷ rs
      → (init_all_services services ≡ ok calls)
        × (r ≡ (client_init, record { effects = map call calls; after = returns (pos 0) }))
  Reached-inits_twice calls t r rs h l =
      let made = Reached-calls calls t h in
      let k = Reached-IsSound calls t h in
      let order : t.pushed ≡ handled_events (r ∷ rs) ++ k.left =
        subst (λ j. t.pushed ≡ handled_events j ++ k.left) l k.order in
      let first = k.first.1 in
      let same : r.0 ≡ client_init = cc in
      let all =
        subst (All (λ e. answer plugin stack array services s c e.0 ≡ ok e.1)) l k.answered in
      let done : answer plugin stack array services s c client_init ≡ ok r.1 =
        subst (λ e. answer plugin stack array services s c e ≡ ok r.1) same all.0 in
      let told = handle_response-inits plugin stack array services s c none calls made in
      let what : r.1 ≡ record { effects = map call calls; after = returns (pos 0) } = cc in
      (made, λ i. (same i, what i))

  -- No signal is lost: whenever the answering thread waits, in whatever order the threads took
  -- their turns, every event that was pushed has been handled, and the queue is empty.
  pub Reached-waits :
      (calls : List Call) (t : System)
      → Reached plugin stack array services s c calls t
      → t.phase ≡ waits
      → (t.pushed ≡ handled_events t.log) × Represents t.queue []
  Reached-waits calls t r e =
      let h = Reached-IsSound calls t r in
      let k : Keeps waits t.queue h.left = subst (λ p. Keeps p t.queue h.left) e h.memory in
      (
        h.order ∙ ap (λ l. handled_events t.log ++ l) k.1 ∙ append-nil (handled_events t.log),
        subst (Represents t.queue) k.1 k.0,
      )
