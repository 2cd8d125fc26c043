-- ===== src/Process/Interleaving/Schedules/Rounds.antt =====
-- tg_process.c: what a round of __deamon_read pushes, by what select gives.
use tgserver.Base.{
  ℕ, ◌≡◌, ◌≢◌, refl, sym, ap, ◌∙◌, Bool, true, false, List, [], ◌∷◌, ◌++◌, append_assoc, append-nil,
  Option, none, some, Run, ok, ◌>>=◌, Bytes, if◌then◌else◌,
}
use tgserver.Context.{Client, State}
use tgserver.Event.{Heap}
use tgserver.Event.Cells.{Event}
use tgserver.Event.Refine.{Represents, push-frame}
use tgserver.Reader.{Outcome, read_data_from_cli, read_data_from_main_process}
use tgserver.Response.{NameArray}
use tgserver.Service.{Services}
use tgserver.Process.Interleaving.{System, signal, told, woken, read_client, read_main}
use tgserver.Process.Interleaving.Schedules.{malloc, ready, interrupted, failed, deamon_read}

-- The events of a call of the reader, which are none where its descriptor is not ready.
abbrev pub events_if : Bool → Outcome → List Event
events_if b o = if b then elim (told o) [ none ↦ [] | some e ↦ e ∷ [] ] else []

malloc-new : (a : ℕ) (heap : Heap) → heap a ≡ none → malloc a heap ≡ ok a
unfolding malloc
malloc-new a heap z = rw (malloc, z) refl

-- The event is pushed, and other addresses that are not live stay so.
signal-pushes :
    (a : ℕ) (o : Outcome) (t : System) (es : List Event)
    → Represents t.queue es
    → t.queue.heap a ≡ none
    → (u : System) × (signal a (told o) t ≡ ok u)
      × (u.pushed ≡ t.pushed ++ events_if true o)
      × Represents u.queue (es ++ events_if true o)
      × (u.socket ≡ t.socket)
      × (u.pipe ≡ t.pipe)
      × ((x : ℕ) → t.queue.heap x ≡ none → x ≢ a → u.queue.heap x ≡ none)
unfolding signal
signal-pushes a o t es r z = by_event (told o)
  where
    by_event :
        (e : Option Event)
        → (u : System) × (signal a e t ≡ ok u)
          × (u.pushed ≡ t.pushed ++ elim e as (λ _. List Event) [ none ↦ [] | some x ↦ x ∷ [] ])
          × Represents u.queue (es ++ elim e as (λ _. List Event) [ none ↦ [] | some x ↦ x ∷ [] ])
          × (u.socket ≡ t.socket)
          × (u.pipe ≡ t.pipe)
          × ((x : ℕ) → t.queue.heap x ≡ none → x ≢ a → u.queue.heap x ≡ none)
    by_event none =
        (t, refl, sym (append-nil t.pushed), rw (append-nil es) r, refl, refl, (λ x y apart. y))
    by_event (some e) =
        let (q, pushed, rep, frame) = push-frame a e.0 e.1 t.queue es r z in
        (
          record t { queue = q; phase = woken t.phase; pushed = t.pushed ++ e ∷ [] },
          rw pushed refl,
          refl,
          rep,
          refl,
          refl,
          frame,
        )

module _ (plugin : ℕ → Bytes → Run (Option Bytes)) (stack : Bytes) (array : NameArray)
    (services : Services) (s : State) (c : Client) where
  -- A round of __deamon_read in which select finds the socket or the pipe ready, or both, pushes the
  -- event that read_data_from_cli hands over if the socket is ready, and behind it that of
  -- read_data_from_main_process if the pipe is ready; a descriptor that is not ready is not read,
  -- and the thread goes on. Where select is interrupted by a signal, the thread leaves its loop, and
  -- after another failure it goes on, without a read. The two calls do not fault, and malloc gives
  -- two addresses that are not live.
  pub deamon_read-pushes :
      (fuel beyond a d : ℕ) (client main : Bool) (t : System) (es : List Event) (o p : Outcome)
      → Represents t.queue es
      → t.queue.heap a ≡ none
      → t.queue.heap d ≡ none
      → d ≢ a
      → read_data_from_cli fuel beyond (some c) t.socket ≡ ok o
      → read_data_from_main_process stack (some c) t.pipe ≡ ok p
      → ((u : System) × (deamon_read plugin stack array services s c fuel beyond a d
              (ready client main)
              t
            ≡ ok (u, true))
          × (u.pushed ≡ t.pushed ++ (events_if client o ++ events_if main p))
          × Represents u.queue (es ++ (events_if client o ++ events_if main p))
          × (u.socket ≡ (if client then o.rest else t.socket))
          × (u.pipe ≡ (if main then p.rest else t.pipe)))
        × (deamon_read plugin stack array services s c fuel beyond a d interrupted t
            ≡ ok (t, false))
        × (deamon_read plugin stack array services s c fuel beyond a d failed t ≡ ok (t, true))
  unfolding deamon_read read_client read_main
  deamon_read-pushes fuel beyond a d client main t es o p r z y apart reads_o reads_p =
      let (u, first, more, rep, sock, pipe, left) = from_client client in
      let (v, second, more', rep', sock', pipe') =
        from_main main u (es ++ events_if client o) rep left pipe in
      (
        (
          v,
          rw (first, second) refl,
          more'
              ∙ ap (λ l. l ++ events_if main p) more
              ∙ append_assoc t.pushed (events_if client o) (events_if main p),
          (rw (append_assoc es (events_if client o) (events_if main p)) at rep'),
          sock' ∙ sock,
          pipe',
        ),
        refl,
        refl,
      )
    where
      from_client :
          (b : Bool)
          → (u : System) × ((if b
                then (malloc a t.queue.heap >>= λ x. read_client stack c fuel beyond x t)
                else ok t)
              ≡ ok u)
            × (u.pushed ≡ t.pushed ++ events_if b o)
            × Represents u.queue (es ++ events_if b o)
            × (u.socket ≡ (if b then o.rest else t.socket))
            × (u.pipe ≡ t.pipe)
            × (u.queue.heap d ≡ none)
      from_client false = (t, refl, sym (append-nil t.pushed), rw (append-nil es) r, refl, refl, y)
      from_client true =
          let (u, done, more, rep, sock, pipe, frame) =
            signal-pushes a o (record t { socket = o.rest }) es r z in
          (
            u,
            rw (malloc-new a t.queue.heap z) (rw reads_o done),
            more,
            rep,
            sock,
            pipe,
            frame d y apart,
          )

      from_main :
          (b : Bool) (u : System) (fs : List Event)
          → Represents u.queue fs
          → u.queue.heap d ≡ none
          → u.pipe ≡ t.pipe
          → (v : System) × ((if b
                then (malloc d u.queue.heap >>= λ x. read_main stack c x u)
                else ok u)
              ≡ ok v)
            × (v.pushed ≡ u.pushed ++ events_if b p)
            × Represents v.queue (fs ++ events_if b p)
            × (v.socket ≡ u.socket)
            × (v.pipe ≡ (if b then p.rest else t.pipe))
      from_main false u fs rep left same =
          (u, refl, sym (append-nil u.pushed), rw (append-nil fs) rep, refl, same)
      from_main true u fs rep left same =
          let reads : read_data_from_main_process stack (some c) u.pipe ≡ ok p =
            ap (read_data_from_main_process stack (some c)) same ∙ reads_p in
          let (v, done, more, rep', sock, pipe, frame) =
            signal-pushes d p (record u { pipe = p.rest }) fs rep left in
          (v, rw (malloc-new d u.queue.heap left) (rw reads done), more, rep', sock, pipe)
