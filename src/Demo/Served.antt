-- ===== src/Demo/Served.antt =====
-- plugins/demo/demo.c in a client process (tg_process.c): from the initialization of the plugin to
-- the answer that a client gets for its points.
mod Tests
use tgserver.Base.{
  sizes, lacks-All, ℕ, zero, suc, append-nil, ◌-◌, replicate, length-replicate, ◌+◌, ◌*◌, ◌≤◌, ◌<◌,
  ◌≡◌, ◌≢◌, refl, sym, ap, ◌∙◌, List, [], ◌∷◌, ◌++◌, Option, none, some, length, take, drop, pos,
  ok, Run, ◌>>=◌, Bytes, All, arith, codes, le_bytes, length-append, append_assoc, length-take,
  length-drop, take-append-drop,
}
use tgserver.Context.{Client, State}
use tgserver.Event.Cells.{Event}
use tgserver.Event.Refine.{Represents}
use tgserver.Util.Search.{Lacks}
use tgserver.Service.{Service, Slot, Call}
use tgserver.Service.Table.{NoNul, at_null, found}
use tgserver.Reader.Inputs.{chunks, NonEmpty, joined}
use tgserver.Reader.Frames.{frame}
use tgserver.Response.{zeroed, Handled}
use tgserver.Response.Requests.{request_for}
use tgserver.Response.Contracts.{KeepsContract}
use tgserver.Process.Interleaving.{System, read_client, respond, Reached}
use tgserver.Process.Interleaving.Sound.{handled_events}
use tgserver.Process.Interleaving.Progress.{IsIdle}
use tgserver.Process.Interleaving.Serves.{services_in, AnswersWith, respond-AnswersWith}
use tgserver.Demo.{init_point, do_request}
use tgserver.Demo.Points.{points_from, init_point-points}
use tgserver.Demo.Answers.{numbered, holding, all_points, do_request-points}

-- The bytes that shmget is asked for.
abbrev pub segment : ℕ
segment = 102400

pub length-points_from : (n i : ℕ) → length (points_from i n) ≡ n * 8
length-points_from zero i = refl
length-points_from (suc n) i = omega (arith, length-points_from n (suc i))

-- A memory in four parts.
quarters :
    (a b n : ℕ) (m : Bytes)
    → take a m ++ (take b (drop a m) ++ (take n (drop b (drop a m)) ++ drop n (drop b (drop a m))))
      ≡ m
quarters a b n m =
    ap (λ r. take a m ++ (take b (drop a m) ++ r)) (take-append-drop n (drop b (drop a m)))
    ∙ ap (λ r. take a m ++ r) (take-append-drop b (drop a m))
    ∙ take-append-drop a m

-- The memory of the plugin after its initialization.
abbrev pub filled : Bytes → Bytes
filled shared =
    take 10 shared ++ (le_bytes 18 ++ (points_from 0 18 ++ drop 144 (drop 4 (drop 10 shared))))

pub init_point-filled :
    (shared : Bytes) → length shared ≡ segment → init_point (some shared) ≡ ok (filled shared)
init_point-filled shared l =
    ap (λ m. init_point (some m)) (sym (quarters 10 4 144 shared))
    ∙ init_point-points (take 10 shared) (take 4 (drop 10 shared))
        (take 144 (drop 4 (drop 10 shared))) (drop 144 (drop 4 (drop 10 shared))) (omega sizes)
        (omega sizes) (omega sizes)

pub do_request-filled :
    (shared behind : Bytes)
    → length shared ≡ segment
    → do_request (some (filled shared)) (all_points ++ behind)
      ≡ ok (le_bytes 162 ++ numbered 18 (points_from 0 18))
do_request-filled shared behind l =
    (do_request-points (take 10 shared) (points_from 0 18) (drop 144 (drop 4 (drop 10 shared)))
        behind 18 (omega sizes) (length-points_from 18 0) (omega sizes) (omega arith)).0
      (omega arith) (omega arith)

pub length-numbered :
    (n : ℕ) (points : Bytes) → 4 ≤ n → length points ≡ n * 8 → length (numbered n points) ≡ n * 9
length-numbered n points k l = omega sizes

-- Once it has been initialized, the plugin keeps the contract for its one request.
pub do_request-KeepsContract :
    (function : Bytes → Run (Option Bytes)) (shared m : Bytes)
    → length shared ≡ segment
    → init_point (some shared) ≡ ok m
    → ((memory : Bytes) → function memory ≡ (do_request (some m) memory >>= λ r. ok (some r)))
    → KeepsContract function (codes "libdemo.so") (codes "all") (numbered 18 (points_from 0 18))
do_request-KeepsContract function shared m size init is = record {
  more = [];
  returned = λ x.
      let request = request_for (codes "libdemo.so") (codes "all") (x ∷ []) in
      let same = init_point-filled shared size in
      let now : m ≡ filled shared = cc in
      is request
      ∙ (λ i. do_request (some (now i)) request >>= λ r. ok (some r))
      ∙ rw (do_request-filled shared (x ∷ []) size) refl;
  some_bytes = omega arith;
  fits_int = omega arith;
}

-- Where the functions of the service "libdemo.so" are those of the plugin and its shared memory has
-- been initialized, a client process that has handled all that came before answers
-- "tg://libdemo.so/all", with its NUL in one frame and in any pieces of which the first has the
-- whole length and nothing of a later request, in the next round of the answering thread: one frame
-- with the number 18, the 18 points and 14 bytes of 0, whatever the shared memory held before. The
-- names of the services hold no NUL, and malloc gives an address that is not live; the compiler
-- keeps ten bytes where it declares the name as an array of five (C alone does not grant this), and
-- a 0 stands behind them.
pub init_point-AnswersWith :
    (plugin : ℕ → Bytes → Run (Option Bytes)) (stack : Bytes) (reserved : ℕ → ℕ) (shared m : Bytes)
    (ss : List (Bytes × Service)) (free : List Slot) (counts : ℕ) (s : State) (c : Client)
    (calls : List Call) (t : System) (fuel beyond a fd : ℕ) (later first : Bytes) (cs : List Bytes)
    (q : Service)
    → length shared ≡ segment
    → init_point (some shared) ≡ ok m
    → ((memory : Bytes)
        → plugin q.do_request memory ≡ (do_request (some m) memory >>= λ r. ok (some r)))
    → found (codes "libdemo.so") ss (at_null free) ≡ ok (some q)
    → All (λ x. NoNul x.0) ss
    → Reached plugin stack (zeroed reserved) (services_in ss free counts) s c calls t
    → IsIdle t.phase
    → t.pushed ≡ handled_events t.log
    → t.queue.heap a ≡ none
    → c.sockfd ≡ pos fd
    → t.socket ≡ chunks (first ∷ cs)
    → NonEmpty (first ∷ cs)
    → joined (first ∷ cs) ≡ frame all_points ++ later
    → 4 ≤ length first
    → length first ≤ 4 + length all_points
    → length (first ∷ cs) < fuel
    → 10 ≤ reserved 5
    → (u : System) × (v : System) × (read_client stack c fuel beyond a t ≡ ok u)
      × (respond plugin stack (zeroed reserved) (services_in ss free counts) s c 1 u ≡ ok v)
      × (log : List (Event × Handled)) × (e : Event) × (h : Handled) × (v.log ≡ log ++ (e, h) ∷ [])
      × AnswersWith c (numbered 18 (points_from 0 18)) h
      × Represents v.queue []
init_point-AnswersWith plugin stack reserved shared m ss free counts s c calls t fuel beyond a fd
      later first cs q size init is f ns r idle none_left z k sock n j w w' fu fits =
    respond-AnswersWith plugin stack reserved ss free counts s c calls t fuel beyond a fd
      (codes "libdemo.so") (codes "all") (numbered 18 (points_from 0 18)) later first cs q r idle
      none_left z k sock n j w w' (omega arith) fu (omega arith, fits)
      (lacks-All 0 (codes "libdemo.so") refl) (lacks-All b'/' (codes "libdemo.so") refl)
      (lacks-All 0 (codes "all") refl) ns f
      (do_request-KeepsContract (plugin q.do_request) shared m size init is)
