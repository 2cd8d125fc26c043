-- ===== src/Process/Interleaving/Sound.antt =====
-- tg_process.c: what holds in every state that the two threads of a client process come to.
use mathlib.Core.List.{map-append}
use tgserver.Base.{
  ℕ, ◌≡◌, ◌≢◌, refl, sym, ap, subst, ◌∙◌, List, [], ◌∷◌, ◌++◌, map, append_assoc, Option, none,
  some, ℤ, ok, Bytes, All, All-append, Run,
}
use tgserver.Context.{Client, State}
use tgserver.Event.{Queue, push_event_to_queue}
use tgserver.Event.Cells.{Event}
use tgserver.Event.Refine.{Represents, push-Represents, head-Pops}
use tgserver.Event.Flight.{InFlight, head-InFlight, push-InFlight, free-InFlight}
use tgserver.Service.{Services}
use tgserver.Response.{NameArray, Handled, After, returns, exits}
use tgserver.Process.Interleaving.{
  Phase, looks, waits, gone, woken, holds, System, client_init, signal, take_at, finish, answer,
}

-- The memory of the queue holds the events `es`: they wait, or the first of them is at hand and the
-- others wait. A process that has ended has no memory.
abbrev pub Keeps : Phase → Queue → List Event → Type 0
Keeps looks q es = Represents q es
Keeps (holds a) q [] = ⊥
Keeps (holds a) q (x ∷ es) = InFlight q a x es
Keeps waits q es = Represents q es × (es ≡ [])
Keeps gone q es = Unit

push-Keeps :
    (p : Phase) (a : ℕ) (e : Event) (q : Queue) (es : List Event)
    → Keeps p q es
    → p ≢ gone
    → q.heap a ≡ none
    → (q' : Queue) × (push_event_to_queue a e.0 e.1 q ≡ ok q') × Keeps (woken p) q' (es ++ e ∷ [])
push-Keeps looks a e q es k g z = push-Represents a e.0 e.1 q es k z
push-Keeps (holds b) a e q [] k g z = absurd k
push-Keeps (holds b) a e q (x ∷ es) k g z = push-InFlight a e.0 e.1 q b x es k z
push-Keeps waits a e q es k g z = push-Represents a e.0 e.1 q es k.0 z
push-Keeps gone a e q es k g z = absurd (g refl)

abbrev pub handled_events : List (Event × Handled) → List Event
handled_events = map (λ r. r.0)

module _ (plugin : ℕ → Bytes → Run (Option Bytes)) (stack : Bytes) (array : NameArray)
    (services : Services) (s : State) (c : Client) where
  -- The events that have been handled and those that are left are, in this order, those that were
  -- pushed; those that are left are in the memory of the queue; the handlers did what the log says;
  -- and the event of the initialization was the first.
  pub record IsSound (t : System) : Type 0 where
    pub left : List Event
    pub order : t.pushed ≡ handled_events t.log ++ left
    pub memory : Keeps t.phase t.queue left
    pub answered : All (λ r. answer plugin stack array services s c r.0 ≡ ok r.1) t.log
    pub first : (es : List Event) × (t.pushed ≡ client_init ∷ es)

  pub signal-IsSound :
      (a : ℕ) (o : Option Event) (t : System)
      → IsSound t
      → t.phase ≢ gone
      → t.queue.heap a ≡ none
      → (u : System) × (signal a o t ≡ ok u) × IsSound u
  unfolding signal
  signal-IsSound a none t h g z = (t, refl, h)
  signal-IsSound a (some e) t h g z =
      let (q', pushed, k) = push-Keeps t.phase a e t.queue h.left h.memory g z in
      (
        record t { queue = q'; phase = woken t.phase; pushed = t.pushed ++ e ∷ [] },
        rw pushed,
        record {
          left = h.left ++ e ∷ [];
          order =
              ap (λ l. l ++ e ∷ []) h.order ∙ append_assoc (handled_events t.log) h.left (e ∷ []);
          memory = k;
          answered = h.answered;
          first = (h.first.0 ++ e ∷ [], ap (λ l. l ++ e ∷ []) h.first.1);
        },
      )

  -- The memory of a thread that looks at the queue.
  looking :
      (t : System) (h : IsSound t) (es : List Event)
      → h.left ≡ es
      → t.phase ≡ looks
      → Represents t.queue es
  looking t h es l e =
      subst (Keeps looks t.queue) l (subst (λ p. Keeps p t.queue h.left) e h.memory)

  -- With no event left the thread waits, and with one it takes the first.
  pub take_none :
      (t : System) (h : IsSound t)
      → h.left ≡ []
      → t.phase ≡ looks
      → (take_at looks t ≡ ok (record t { phase = waits }))
        × (k : IsSound (record t { phase = waits })) × (k.left ≡ [])
  unfolding take_at
  take_none t h l e = (
    rw (head-Pops t.queue [] (looking t h [] l e)),
    record {
      left = [];
      order = h.order ∙ ap (λ k. handled_events t.log ++ k) l;
      memory = (looking t h [] l e, refl);
      answered = h.answered;
      first = h.first;
    },
    refl,
  )

  pub take_first :
      (t : System) (h : IsSound t) (x : Event) (es : List Event)
      → h.left ≡ x ∷ es
      → t.phase ≡ looks
      → (a : ℕ) × (u : System) × (take_at looks t ≡ ok u)
        × (u.pushed ≡ t.pushed)
        × (u.phase ≡ holds a)
        × (k : IsSound u) × (k.left ≡ x ∷ es)
  unfolding take_at
  take_first t h x es l e =
      let (a, q', popped, f) = head-InFlight t.queue x es (looking t h (x ∷ es) l e) in
      (
        a,
        record t { queue = q'; phase = holds a },
        rw popped,
        refl,
        refl,
        record {
          left = x ∷ es;
          order = h.order ∙ ap (λ k. handled_events t.log ++ k) l;
          memory = f;
          answered = h.answered;
          first = h.first;
        },
        refl,
      )

  -- The state in which the handler of x has run.
  abbrev pub logged : System → Event → Handled → System
  logged t x k = record t { log = t.log ++ (x, k) ∷ [] }

  logged-order :
      (t : System) (h : IsSound t) (x : Event) (es : List Event) (k : Handled)
      → h.left ≡ x ∷ es
      → t.pushed ≡ handled_events (t.log ++ (x, k) ∷ []) ++ es
  logged-order t h x es k l =
      h.order
      ∙ ap (λ j. handled_events t.log ++ j) l
      ∙ sym (append_assoc (handled_events t.log) (x ∷ []) es)
      ∙ ap (λ j. j ++ es) (sym (map-append (λ r. r.0) t.log ((x, k) ∷ [])))

  logged-answered :
      (t : System) (h : IsSound t) (x : Event) (k : Handled)
      → answer plugin stack array services s c x ≡ ok k
      → All (λ r. answer plugin stack array services s c r.0 ≡ ok r.1) (t.log ++ (x, k) ∷ [])
  logged-answered t h x k at = All-append _ t.log ((x, k) ∷ []) h.answered (at, tt)

  -- What the handler did is in the log, whether it returns or ends the process.
  pub finish-IsSound :
      (t : System) (h : IsSound t) (a : ℕ) (x : Event) (es : List Event) (k : Handled)
      → h.left ≡ x ∷ es
      → InFlight t.queue a x es
      → answer plugin stack array services s c x ≡ ok k
      → (w : After)
      → (u : System) × (finish a w (logged t x k) ≡ ok u)
        × (u.pushed ≡ t.pushed)
        × (d : IsSound u) × (d.left ≡ es)
        × ((r : ℤ) → w ≡ returns r → u.phase ≡ looks)
  unfolding finish
  finish-IsSound t h a x es k l f at exits = (
    record (logged t x k) { phase = gone },
    refl,
    refl,
    record {
      left = es;
      order = logged-order t h x es k l;
      memory = tt;
      answered = logged-answered t h x k at;
      first = h.first;
    },
    refl,
    λ r e. cc,
  )
  finish-IsSound t h a x es k l f at (returns r) =
      let (n, heap, loaded, says, freed, rep) = free-InFlight t.queue a x es f in
      (
        record (logged t x k) { queue = record (t.queue) { heap = heap }; phase = looks },
        rw freed,
        refl,
        record {
          left = es;
          order = logged-order t h x es k l;
          memory = rep;
          answered = logged-answered t h x k at;
          first = h.first;
        },
        refl,
        λ r e. refl,
      )

  -- The event at hand, of which the node is live.
  pub at_hand :
      (t : System) (h : IsSound t) (a : ℕ)
      → t.phase ≡ holds a
      → (x : Event) × (es : List Event) × (h.left ≡ x ∷ es) × InFlight t.queue a x es
  at_hand t h a e = named h.left refl (subst (λ p. Keeps p t.queue h.left) e h.memory)
    where
      named :
          (l : List Event)
          → h.left ≡ l
          → Keeps (holds a) t.queue h.left
          → (x : Event) × (es : List Event) × (h.left ≡ x ∷ es) × InFlight t.queue a x es
      named [] d k = absurd (subst (Keeps (holds a) t.queue) d k)
      named (x ∷ es) d k = (x, es, d, subst (Keeps (holds a) t.queue) d k)
