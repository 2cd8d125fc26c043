-- ===== src/Process/Interleaving/Farewell.antt =====
-- tg_process.c: how a message of the main process ends a client process, from the pipe to the last
-- words to the client.
use tgserver.Base.{
  inl, inr, ℕ, ◌≡◌, refl, ap, ◌∙◌, false, List, [], ◌∷◌, ◌++◌, Option, none, some, pos, Run, ok,
  Bytes, arith, codes, is_digit, digits_value,
}
use tgserver.Context.{Client, Context, Slots}
use tgserver.Context.Table.{with_table}
use tgserver.Event.{load}
use tgserver.Event.Cells.{Event}
use tgserver.Event.Refine.{Represents, push-Represents, head-Pops}
use tgserver.Service.{Services, Call}
use tgserver.Admin.{close_message}
use tgserver.Reader.{Stream, chunk, read_data_from_main_process}
use tgserver.Reader.Messages.{read_data_from_main_process-digits}
use tgserver.Response.{NameArray, Handled, exits}
use tgserver.Response.Outcomes.{ends_with, handle_response-ends_with}
use tgserver.Process.Interleaving.{
  Phase, looks, waits, gone, woken, holds, System, signal, read_main, answer, respond, Reached,
  take_event, answer_event, take_at, answer_at, finish,
}
use tgserver.Process.Interleaving.Sound.{handled_events}
use tgserver.Process.Interleaving.Progress.{IsIdle, handled-Represents, answers_loaded}

-- The messages of the main process that end a client process: what it writes into the pipe, the
-- type of the event, and what the client is told.
pub data Ending : Bytes → ℕ → Bytes → Type 0 where
  shutdown : Ending (codes "tg://1003/") 1003 (codes "tg://2003/")
  by_admin : Ending close_message 1005 (codes "tg://2007/")

woken_looks : (p : Phase) → IsIdle p → woken p ≡ looks
woken_looks looks i = refl
woken_looks waits i = refl
woken_looks gone (inl e) = cc
woken_looks gone (inr e) = cc
woken_looks (holds a) (inl e) = cc
woken_looks (holds a) (inr e) = cc

-- What stands behind the four digits on the stack does not lengthen the number.
not_lengthened : (n x : ℕ) (more : Bytes) → is_digit x ≡ false → digits_value n (x ∷ more) ≡ ok n
unfolding digits_value
not_lengthened n x more h = rw h refl

module _ (plugin : ℕ → Bytes → Run (Option Bytes)) (x : ℕ) (more : Bytes) (array : NameArray)
    (services : Services) (xs : Slots) (g : Context) (c : Client) where
  -- A round of the answering thread whose handler ends the process.
  ends_round :
      (u : System) (e : Event) (h : Handled)
      → u.phase ≡ looks
      → Represents u.queue (e ∷ [])
      → answer plugin (x ∷ more) array services (with_table xs g) c e ≡ ok h
      → h.after ≡ exits
      → (v : System) × (respond plugin (x ∷ more) array services (with_table xs g) c 1 u ≡ ok v)
        × (v.phase ≡ gone)
        × (v.log ≡ u.log ++ (e, h) ∷ [])
  unfolding respond take_event answer_event take_at answer_at finish
  ends_round u e h ready rep done ends =
      let (a, n, q, popped, at, k, empty, freed) = head-Pops u.queue (e ∷ []) rep in
      let held : System = record u { queue = q; phase = holds a } in
      let taken : take_event u ≡ ok held = rw ready (rw popped refl) in
      let loaded : load q.heap (some a) ≡ ok n = rw (load, at) refl in
      let answered =
        answers_loaded plugin (x ∷ more) array services (with_table xs g) c held a n e h loaded k
          done in
      let v : System = record u { queue = q; phase = gone; log = u.log ++ (e, h) ∷ [] } in
      let last : answer_event plugin (x ∷ more) array services (with_table xs g) c held ≡ ok v =
        answered ∙ ap (λ f. finish a f (record held { log = u.log ++ (e, h) ∷ [] })) ends in
      (v, rw taken (rw last refl), refl, refl)

  reads-Ending :
      (message told : Bytes) (id fd : ℕ) (later : Stream)
      → Ending message id told
      → is_digit x ≡ false
      → c.read_pipe ≡ pos fd
      → read_data_from_main_process (x ∷ more) (some c) (chunk message ∷ later)
        ≡ ok (record { code = pos 0; type_id = some (pos id); payload = none; rest = later })
  reads-Ending _ _ _ fd later shutdown d piped =
      read_data_from_main_process-digits b'1' b'0' b'0' b'3' refl refl refl refl fd 1003 c
        (b'/' ∷ []) (x ∷ more) later piped (omega arith) (not_lengthened 1003 x more d)
  reads-Ending _ _ _ fd later by_admin d piped =
      read_data_from_main_process-digits b'1' b'0' b'0' b'5' refl refl refl refl fd 1005 c (0 ∷ [])
        (x ∷ more) later piped (omega arith) (not_lengthened 1005 x more d)

  says-Ending :
      (message told : Bytes) (id : ℕ)
      → Ending message id told
      → answer plugin (x ∷ more) array services (with_table xs g) c (pos id, none)
        ≡ ends_with told xs g c
  says-Ending _ _ _ shutdown =
      (handle_response-ends_with plugin (x ∷ more) array services xs g c none).0
  says-Ending _ _ _ by_admin =
      (handle_response-ends_with plugin (x ∷ more) array services xs g c none).1

  -- A message from the main process that ends the client process, where every event before it has
  -- been handled: it is read, and the next round of the answering thread tells the client why,
  -- closes the descriptors of the client and of the context, and is the last one. The byte on the
  -- stack behind the four digits is no digit, and malloc gives an address that is not live.
  pub respond-ends_with :
      (message told : Bytes) (id : ℕ) (calls : List Call) (t : System) (a fd : ℕ) (later : Stream)
      → Ending message id told
      → is_digit x ≡ false
      → Reached plugin (x ∷ more) array services (with_table xs g) c calls t
      → IsIdle t.phase
      → t.pushed ≡ handled_events t.log
      → t.queue.heap a ≡ none
      → c.read_pipe ≡ pos fd
      → t.pipe ≡ chunk message ∷ later
      → (u : System) × (v : System) × (h : Handled) × (read_main (x ∷ more) c a t ≡ ok u)
        × (respond plugin (x ∷ more) array services (with_table xs g) c 1 u ≡ ok v)
        × (v.phase ≡ gone)
        × (v.log ≡ t.log ++ ((pos id, none), h) ∷ [])
        × (ends_with told xs g c ≡ ok h)
  unfolding read_main signal
  respond-ends_with message told id calls t a fd later m d r idle all z piped comes =
      let e : Event = (pos id, none) in
      let empty_queue =
        handled-Represents plugin (x ∷ more) array services (with_table xs g) c calls t r idle
          all in
      let (q, pushed, rep) = push-Represents a (pos id) none t.queue [] empty_queue z in
      let u : System = record t {
        queue = q;
        phase = woken t.phase;
        pipe = later;
        pushed = t.pushed ++ e ∷ [];
      } in
      let heard : read_data_from_main_process (x ∷ more) (some c) t.pipe
          ≡ ok (record { code = pos 0; type_id = some (pos id); payload = none; rest = later }) =
        ap (read_data_from_main_process (x ∷ more) (some c)) comes
        ∙ reads-Ending message told id fd later m d piped in
      let reads : read_main (x ∷ more) c a t ≡ ok u = rw heard (rw pushed refl) in
      let (v, ends, last, logged) =
        ends_round u e _ (woken_looks t.phase idle) rep (says-Ending message told id m) refl in
      (u, v, _, reads, ends, last, logged, refl)
