-- ===== src/Process/Interleaving/Serves.antt =====
-- tg_process.c: a request on its way through a client process, from the socket to the answer.
use tgserver.Base.{
  inl, inr, ℕ, ◌+◌, ◌≤◌, ◌<◌, ◌≡◌, ◌≢◌, refl, ap, subst, ◌∙◌, List, [], ◌∷◌, ◌++◌, map,
  append_assoc, append-nil, int_max, Option, none, some, ℤ, pos, ok, Bytes, All, arith, length,
  codes, le_bytes, Run,
}
use tgserver.Context.{Client, State, write_fd}
use tgserver.Event.Cells.{Event}
use tgserver.Event.Refine.{Represents, push-Represents}
use tgserver.Util.Search.{Lacks}
use tgserver.Service.{Service, Slot, Services, service, Call}
use tgserver.Service.Table.{NoNul, named, at_null, behind_slots, found}
use tgserver.Reader.{Stream, requests, read_data_from_cli}
use tgserver.Reader.Inputs.{chunks, NonEmpty, joined}
use tgserver.Reader.Frames.{frame, read_data_from_cli-HandsOver}
use tgserver.Response.{zeroed, Effect, Handled, act, returns, header}
use tgserver.Response.Requests.{Fits, request_for, handle_response-answers, reply-Frames}
use tgserver.Response.Contracts.{KeepsContract}
use tgserver.Process.Interleaving.{
  Phase, looks, waits, gone, woken, holds, System, signal, read_client, answer, respond, Reached,
  follows, reads_client,
}
use tgserver.Process.Interleaving.Sound.{handled_events}
use tgserver.Process.Interleaving.Progress.{IsIdle, handled-Represents, respond-handles}

-- The last entry of a log, by its events.
last_entry :
    (P : (Event × Handled) → Type 0) (log : List (Event × Handled)) (es : List Event) (e : Event)
    → handled_events log ≡ es ++ e ∷ []
    → All P log
    → (before : List (Event × Handled)) × (h : Handled) × (log ≡ before ++ (e, h) ∷ []) × P (e, h)
last_entry P [] [] e same all = cc
last_entry P [] (x ∷ es) e same all = cc
last_entry P (r ∷ []) [] e same all =
    let this : r.0 ≡ e = cc in
    ([], r.1, (λ i. (this i, r.1) ∷ []), subst (λ y. P (y, r.1)) this all.0)
last_entry P (r ∷ q ∷ log) [] e same all = cc
last_entry P (r ∷ log) (x ∷ es) e same all =
    let (before, h, whole, p) = last_entry P log es e (cc) all.1 in
    (r ∷ before, h, ap (◌∷◌ r) whole, p)

-- What two writes of an answer with the bytes d give the client.
abbrev pub AnswersWith : Client → Bytes → Handled → Type 0
AnswersWith c d h =
    (first : Bytes) × (second : Bytes) × (h ≡ record {
      effects = act (write_fd c.sockfd first) ∷ act (write_fd c.sockfd second) ∷ [];
      after = returns (pos 0);
    })
    × (first ++ second ≡ le_bytes (length (first ++ second)) ++ (codes "tg://2000/" ++ d))

-- The table of the services `ss`, with a NULL slot behind them.
abbrev pub services_in : List (Bytes × Service) → List Slot → ℕ → Services
services_in ss free counts = record {
  table = some (map service (map named ss) ++ behind_slots (at_null free));
  counts = counts;
}

module _ (plugin : ℕ → Bytes → Run (Option Bytes)) (stack : Bytes) (reserved : ℕ → ℕ)
    (ss : List (Bytes × Service)) (free : List Slot) (counts : ℕ) (s : State) (c : Client) where
  abbrev asked : Bytes → Event
  asked memory = (pos 1001, some memory)

  -- The next request, once it has been read, is answered in the next round.
  answered_next :
      (calls : List Call) (t : System) (fuel beyond a : ℕ) (memory : Bytes) (rest : Stream)
      (effects : List Effect) (n : ℤ)
      → Reached plugin stack (zeroed reserved) (services_in ss free counts) s c calls t
      → IsIdle t.phase
      → t.pushed ≡ handled_events t.log
      → t.queue.heap a ≡ none
      → read_data_from_cli fuel beyond (some c) t.socket ≡ ok (requests memory rest)
      → answer plugin stack (zeroed reserved) (services_in ss free counts) s c (asked memory)
        ≡ ok (record { effects = effects; after = returns n })
      → (u : System) × (v : System) × (read_client stack c fuel beyond a t ≡ ok u)
        × (respond plugin stack (zeroed reserved) (services_in ss free counts) s c 1 u ≡ ok v)
        × (log : List (Event × Handled)) × (v.log
            ≡ log ++ (asked memory, record { effects = effects; after = returns n }) ∷ [])
        × Represents v.queue []
  unfolding read_client signal
  answered_next calls t fuel beyond a memory rest effects n r idle none_left z reads done =
      let empty_queue =
        handled-Represents plugin stack (zeroed reserved) (services_in ss free counts) s c calls t r
          idle none_left in
      let (q1, pushed, rep) = push-Represents a (pos 1001) (some memory) t.queue [] empty_queue z in
      let u : System = record t {
        socket = rest;
        queue = q1;
        phase = woken t.phase;
        pushed = t.pushed ++ asked memory ∷ [];
      } in
      let read : read_client stack c fuel beyond a t ≡ ok u = rw reads (rw pushed refl) in
      let (v, ends, kept, all, empty, logged) =
        respond-handles plugin stack (zeroed reserved) (services_in ss free counts) s c calls u
          (asked memory ∷ []) 1
          (follows r (reads_client fuel beyond a (looks_on t.phase idle) z read))
          (woken_on t.phase idle) (ap (λ y. y ++ asked memory ∷ []) none_left)
          ((effects, n, done), tt) (omega arith) in
      let (log, h, whole, at) =
        last_entry
          (λ y. answer plugin stack (zeroed reserved) (services_in ss free counts) s c y.0 ≡ ok y.1)
          v.log t.pushed (asked memory) (all ∙ kept) logged in
      let one : h ≡ record { effects = effects; after = returns n } = cc in
      (u, v, read, ends, log, whole ∙ ap (λ y. log ++ (asked memory, y) ∷ []) one, empty)
    where
      looks_on : (p : Phase) → IsIdle p → p ≢ gone
      looks_on p (inl e) f = cc
      looks_on p (inr e) f = cc

      woken_on : (p : Phase) → IsIdle p → woken p ≢ gone
      woken_on looks i f = cc
      woken_on waits i f = cc
      woken_on gone (inl e) f = cc
      woken_on gone (inr e) f = cc
      woken_on (holds b) i f = cc

  -- Where the client process has handled all that came before, a request "tg://name/args" with its
  -- NUL, in one frame and in any pieces of which the first has the whole length and nothing of a
  -- later request, is read and, in the next round of the answering thread, answered with one frame
  -- with the bytes d that the plugin of the first service under the name returns; the queue is empty
  -- again. Neither the request nor the names of the services hold another NUL, the name holds no
  -- "/", malloc gives an address that is not live, and the plugin keeps its contract for the request;
  -- the compiler keeps as many bytes for the array of the copied name, declared for five bytes less,
  -- as the name has (C alone does not grant this), and a 0 stands behind them.
  pub respond-AnswersWith :
      (calls : List Call) (t : System) (fuel beyond a fd : ℕ) (name args d later first : Bytes)
      (cs : List Bytes) (q : Service)
      → Reached plugin stack (zeroed reserved) (services_in ss free counts) s c calls t
      → IsIdle t.phase
      → t.pushed ≡ handled_events t.log
      → t.queue.heap a ≡ none
      → c.sockfd ≡ pos fd
      → t.socket ≡ chunks (first ∷ cs)
      → NonEmpty (first ∷ cs)
      → joined (first ∷ cs) ≡ frame (request_for name args []) ++ later
      → 4 ≤ length first
      → length first ≤ 4 + length (request_for name args [])
      → length (request_for name args []) < int_max
      → length (first ∷ cs) < fuel
      → Fits reserved name
      → NoNul name
      → Lacks b'/' name
      → NoNul args
      → All (λ x. NoNul x.0) ss
      → found name ss (at_null free) ≡ ok (some q)
      → KeepsContract (plugin q.do_request) name args d
      → (u : System) × (v : System) × (read_client stack c fuel beyond a t ≡ ok u)
        × (respond plugin stack (zeroed reserved) (services_in ss free counts) s c 1 u ≡ ok v)
        × (log : List (Event × Handled)) × (e : Event) × (h : Handled) × (v.log
            ≡ log ++ (e, h) ∷ [])
        × AnswersWith c d h
        × Represents v.queue []
  respond-AnswersWith calls t fuel beyond a fd name args d later first cs q r idle none_left z k
        sock n j m w size fu fits nn l na ns f contract =
      let (x, ds, reads, more_left) =
        read_data_from_cli-HandsOver fuel beyond fd c (request_for name args []) later first cs k n
          j m w (omega arith) size fu in
      let same : request_for name args [] ++ x ∷ [] ≡ request_for name args (x ∷ []) =
        ap (λ y. header ++ y) (append_assoc (name ++ b'/' ∷ args) (0 ∷ []) (x ∷ [])) in
      let (one, two, sent, whole) =
        reply-Frames c d contract.more contract.some_bytes contract.fits_int in
      let done =
        (handle_response-answers plugin stack reserved ss free counts s c name [] args (x ∷ []) nn l
            tt na ns).0
          fits
        ∙ rw (append-nil name) (rw f (rw (contract.returned x) (rw sent refl))) in
      let (u, v, read, ends, log, logged, empty) =
        answered_next calls t fuel beyond a (request_for name args (x ∷ [])) (chunks ds)
          (act (write_fd c.sockfd one) ∷ act (write_fd c.sockfd two) ∷ []) (pos 0) r idle none_left
          z
          (ap (read_data_from_cli fuel beyond (some c)) sock
            ∙ reads
            ∙ ap (λ y. ok (requests y (chunks ds))) same)
          done in
      (
        u,
        v,
        read,
        ends,
        log,
        asked (request_for name args (x ∷ [])),
        record {
          effects = act (write_fd c.sockfd one) ∷ act (write_fd c.sockfd two) ∷ [];
          after = returns (pos 0);
        },
        logged,
        (one, two, refl, whole),
        empty,
      )
