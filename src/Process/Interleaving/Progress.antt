-- ===== src/Process/Interleaving/Progress.antt =====
-- tg_process.c: the answering thread comes to an end with every event that was pushed.
use tgserver.Base.{
  ◌⊎◌, inl, inr, ℕ, zero, suc, ◌≤◌, ◌≡◌, ◌≢◌, refl, sym, ap, subst, ◌∙◌, List, [], ◌∷◌, ◌++◌,
  append-nil, Option, some, ℤ, ok, ◌>>=◌, Bytes, All, arith, length, Run,
}
use tgserver.Context.{Client, State}
use tgserver.Event.{TgEvent, Queue, load}
use tgserver.Event.Cells.{Event, content}
use tgserver.Event.Refine.{Represents}
use tgserver.Event.Flight.{free-InFlight}
use tgserver.Service.{Services, Call}
use tgserver.Response.{NameArray, Handled, returns, Effect}
use tgserver.Process.Interleaving.{
  Phase, looks, waits, gone, holds, System, take_at, take_event, finish, answer, answer_at,
  answer_event, respond, Reached,
}
use tgserver.Process.Interleaving.Sound.{
  Keeps, handled_events, IsSound, take_none, take_first, finish-IsSound, at_hand,
}
use tgserver.Process.Interleaving.Orders.{Reached-IsSound}

pub append_cancel {ℓ} : {A : Type ℓ} (xs ys zs : List A) → xs ++ ys ≡ xs ++ zs → ys ≡ zs
append_cancel [] ys zs e = e
append_cancel (x ∷ xs) ys zs e = append_cancel xs ys zs (cc)

-- The answering thread has no event in its hands.
abbrev pub IsIdle : Phase → Type 0
IsIdle p = (p ≡ looks) ⊎ (p ≡ waits)

pub idle_empty : (p : Phase) (q : Queue) → IsIdle p → Keeps p q [] → Represents q []
idle_empty looks q i k = k
idle_empty waits q i k = k.0
idle_empty gone q (inl e) k = cc
idle_empty gone q (inr e) k = cc
idle_empty (holds a) q i k = absurd k

module _ (plugin : ℕ → Bytes → Run (Option Bytes)) (stack : Bytes) (array : NameArray)
    (services : Services) (s : State) (c : Client) where
  -- The handler of the event neither faults nor ends the process.
  abbrev pub Returns : Event → Type 0
  Returns e =
      (es : List Effect) × (r : ℤ) × (answer plugin stack array services s c e
        ≡ ok (record { effects = es; after = returns r }))

  abbrev Sound : System → Type 0
  Sound = IsSound plugin stack array services s c

  pub answers_loaded :
      (t : System) (a : ℕ) (n : TgEvent) (x : Event) (k : Handled)
      → load t.queue.heap (some a) ≡ ok n
      → content n ≡ x
      → answer plugin stack array services s c x ≡ ok k
      → answer_at plugin stack array services s c (holds a) t
        ≡ finish a k.after (record t { log = t.log ++ (x, k) ∷ [] })
  unfolding answer_at
  answers_loaded t a n x k loaded says at = rw loaded (
      ap
        (λ y. answer plugin stack array services s c y >>= λ h.
          finish a h.after (record t { log = t.log ++ (y, h) ∷ [] }))
        says
      ∙ rw at refl)

  -- One round from a state in which x is the oldest event that is not handled.
  answers_at :
      (t : System) (h : Sound t) (a : ℕ) (x : Event) (es : List Event)
      → h.left ≡ x ∷ es
      → t.phase ≡ holds a
      → Returns x
      → (u : System) × (answer_event plugin stack array services s c t ≡ ok u)
        × (u.pushed ≡ t.pushed)
        × (u.phase ≡ looks)
        × (d : Sound u) × (d.left ≡ es)
  unfolding answer_event
  answers_at t h a x es l e (effects, r, at) =
      let (y, ys, l', f) = at_hand plugin stack array services s c t h a e in
      let same : x ≡ y = cc in
      let rest : ys ≡ es = cc in
      let k : Handled = record { effects = effects; after = returns r } in
      let at' : answer plugin stack array services s c y ≡ ok k =
        subst (λ z. answer plugin stack array services s c z ≡ ok k) same at in
      let (n, heap, loaded, says, freed, rep) = free-InFlight t.queue a y ys f in
      let (u, done, kept, d, d_left, back) =
        finish-IsSound plugin stack array services s c t h a y ys k l' f at' (returns r) in
      (
        u,
        ap (λ p. answer_at plugin stack array services s c p t) e
            ∙ answers_loaded t a n y k loaded says at'
            ∙ done,
        kept,
        back r refl,
        d,
        d_left ∙ rest,
      )

  round :
      (p : Phase) (t : System) (h : Sound t) (x : Event) (es : List Event)
      → t.phase ≡ p
      → h.left ≡ x ∷ es
      → p ≢ gone
      → Returns x
      → (u : System) × (v : System) × (take_event t ≡ ok u)
        × (answer_event plugin stack array services s c u ≡ ok v)
        × (v.pushed ≡ t.pushed)
        × (v.phase ≡ looks)
        × (d : Sound v) × (d.left ≡ es)
  unfolding take_event take_at
  round gone t h x es e l g w = absurd (g refl)
  round (holds a) t h x es e l g w =
      let (v, done, kept', back, d', left') = answers_at t h a x es l e w in
      (t, v, ap (λ p. take_at p t) e, done, kept', back, d', left')
  round waits t h x es e l g w =
      let k : Keeps waits t.queue h.left = subst (λ p. Keeps p t.queue h.left) e h.memory in
      let none_left = k.1 in cc
  round looks t h x es e l g w =
      let (a, u, taken, kept, held, d, d_left) =
        take_first plugin stack array services s c t h x es l e in
      let (v, done, kept', back, d', left') = answers_at u d a x es d_left held w in
      (u, v, ap (λ p. take_at p t) e ∙ taken, done, kept' ∙ kept, back, d', left')

  looks-IsIdle : (p : Phase) (q : Queue) → p ≢ gone → Keeps p q [] → IsIdle p
  looks-IsIdle looks q g k = inl refl
  looks-IsIdle waits q g k = inr refl
  looks-IsIdle gone q g k = absurd (g refl)
  looks-IsIdle (holds a) q g k = absurd k

  -- With no event left the thread waits.
  abbrev Idles : System → System → Type 0
  Idles t u = (u.pushed ≡ t.pushed) × IsIdle u.phase × (d : Sound u) × (d.left ≡ [])

  waiting-Idles :
      (n : ℕ) (t : System) → t.phase ≡ waits → respond plugin stack array services s c n t ≡ ok t
  unfolding respond take_event answer_event take_at answer_at
  waiting-Idles zero t e = refl
  waiting-Idles (suc n) t e =
      rw (ap (λ p. take_at p t) e)
        (rw (ap (λ p. answer_at plugin stack array services s c p t) e) (waiting-Idles n t e))

  respond-Idles :
      (n : ℕ) (t : System) (h : Sound t)
      → h.left ≡ []
      → IsIdle t.phase
      → (u : System) × (respond plugin stack array services s c n t ≡ ok u) × Idles t u
  unfolding respond take_event answer_event answer_at
  respond-Idles n t h l (inr e) = (t, waiting-Idles n t e, (refl, inr e, h, l))
  respond-Idles zero t h l (inl e) = (t, refl, (refl, inl e, h, l))
  respond-Idles (suc n) t h l (inl e) =
      let (taken, d, none_left) = take_none plugin stack array services s c t h l e in
      let u : System = record t { phase = waits } in
      (
        u,
        rw (ap (λ p. take_at p t) e ∙ taken) (waiting-Idles n u refl),
        (refl, inr refl, d, none_left),
      )

  responds :
      (n : ℕ) (t : System) (h : Sound t) (es : List Event)
      → h.left ≡ es
      → t.phase ≢ gone
      → All Returns es
      → length es ≤ n
      → (u : System) × (respond plugin stack array services s c n t ≡ ok u)
        × (u.pushed ≡ t.pushed)
        × IsIdle u.phase
        × (d : Sound u) × (d.left ≡ [])
  unfolding respond
  responds n t h [] l g w k =
      let idle = looks-IsIdle t.phase t.queue g (subst (Keeps t.phase t.queue) l h.memory) in
      let (u, done, (kept, still, d, none_left)) = respond-Idles n t h l idle in
      (u, done, kept, still, d, none_left)
  responds zero t h (x ∷ es) l g w k = absurd (omega arith)
  responds (suc n) t h (x ∷ es) l g w k =
      let (u, v, taken, done, kept, held, d, d_left) = round t.phase t h x es refl l g w.0 in
      let on : v.phase ≢ gone = λ e. let z : looks ≡ gone = cc in cc in
      let (r, ends, kept', looking, d', left') = responds n v d es d_left on w.1 (omega arith) in
      (r, rw taken (rw (done, ends)), kept' ∙ kept, looking, d', left')

  -- From every state that the two threads come to, in which the process has not ended and the
  -- handlers of the events that are left (waiting or at hand) return, the answering thread, given
  -- as many rounds as there are such events, handles them all without a fault: then the events in
  -- the log are those that were pushed, in their order, each with what its handler did, and the
  -- queue is empty.
  pub respond-handles :
      (calls : List Call) (t : System) (es : List Event) (n : ℕ)
      → Reached plugin stack array services s c calls t
      → t.phase ≢ gone
      → t.pushed ≡ handled_events t.log ++ es
      → All Returns es
      → length es ≤ n
      → (u : System) × (respond plugin stack array services s c n t ≡ ok u)
        × (u.pushed ≡ t.pushed)
        × (handled_events u.log ≡ u.pushed)
        × Represents u.queue []
        × All (λ r. answer plugin stack array services s c r.0 ≡ ok r.1) u.log
  respond-handles calls t es n r g e w k =
      let h = Reached-IsSound plugin stack array services s c calls t r in
      let l : h.left ≡ es = append_cancel (handled_events t.log) h.left es (sym h.order ∙ e) in
      let (u, done, same, looking, d, none_left) = responds n t h es l g w k in
      (
        u,
        done,
        same,
        sym (d.order ∙ ap (λ j. handled_events u.log ++ j) none_left ∙ append-nil _),
        idle_empty u.phase u.queue looking (subst (Keeps u.phase u.queue) none_left d.memory),
        d.answered,
      )

  -- Where the thread is idle and every event that was pushed has been handled, the queue is empty.
  pub handled-Represents :
      (calls : List Call) (t : System)
      → Reached plugin stack array services s c calls t
      → IsIdle t.phase
      → t.pushed ≡ handled_events t.log
      → Represents t.queue []
  handled-Represents calls t r idle all =
      let h = Reached-IsSound plugin stack array services s c calls t r in
      let left : h.left ≡ [] =
        append_cancel (handled_events t.log) h.left []
          (sym h.order ∙ all ∙ sym (append-nil (handled_events t.log))) in
      idle_empty t.phase t.queue idle (subst (Keeps t.phase t.queue) left h.memory)
