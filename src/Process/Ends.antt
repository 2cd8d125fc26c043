-- ===== src/Process/Ends.antt =====
-- tg_process.c: the shutdown, from the main process to the last words of a client process.
mod Tests
use tgserver.Base.{
  inl, inr, ℕ, ◌≡◌, ◌≢◌, refl, sym, ap, ◌∙◌, Bool, true, false, List, [], ◌∷◌, ◌++◌, append_assoc,
  map, Option, none, some, ℤ, pos, is_nonneg, Run, ok, Bytes, codes, is_digit, Bool-cases,
  if◌then◌else◌,
}
use tgserver.Context.{Client, Context, Slots, State, Action, write_fd, release_context}
use tgserver.Context.Loops.{registered}
use tgserver.Context.Table.{with_table}
use tgserver.Context.Counts.{release_all}
use tgserver.Context.Signals.Lists.{writes_to}
use tgserver.Service.{Service, Slot, Services, Call, service, null, destroy_call}
use tgserver.Reader.{Stream, chunk}
use tgserver.Response.{NameArray, Effect, Handled, act, call}
use tgserver.Response.Outcomes.{ends_with}
use tgserver.Process.{Arrival, entered, served, handle_host_shutdown_signal}
use tgserver.Process.Shutdown.{handle_host_shutdown_signal-destroys}
use tgserver.Process.Interleaving.{System, Reached, gone, read_main, respond}
use tgserver.Process.Interleaving.Sound.{handled_events}
use tgserver.Process.Interleaving.Progress.{IsIdle}
use tgserver.Process.Interleaving.Farewell.{shutdown, respond-ends_with}

-- The message to one of the clients stands among the others.
writes_to-here :
    (written : ℤ → ℤ) (msg : Bytes) (c : Client) (w : ℕ) (before after : List Client)
    → c.write_pipe ≡ pos w
    → writes_to written msg (before ++ c ∷ after)
      ≡ writes_to written msg before ++ write_fd (pos w) msg ∷ writes_to written msg after
writes_to-here written msg c w [] after e = rw e refl
writes_to-here written msg c w (d ∷ before) after e =
    let rest = writes_to-here written msg c w before after e in
    elim (Bool-cases (is_nonneg d.write_pipe)) [
      | inl b ↦ rw b (ap (◌∷◌ (write_fd d.write_pipe msg)) rest)
      | inr b ↦ rw b rest
    ]

map-middle {ℓ κ} :
    {A : Type ℓ} {B : Type κ} (f : A → B) (xs : List A) (y : A) (zs : List A) (rest : List B)
    → map f (xs ++ y ∷ zs) ++ rest ≡ map f xs ++ f y ∷ (map f zs ++ rest)
map-middle f [] y zs rest = refl
map-middle f (x ∷ xs) y zs rest = ap (◌∷◌ (f x)) (map-middle f xs y zs rest)

module _ (plugin : ℕ → Bytes → Run (Option Bytes)) (x : ℕ) (more : Bytes) (array : NameArray)
    (services : Services) (xs : Slots) (g : Context) (a : Arrival) where
  -- At a shutdown the main process writes "tg://1003/" into the pipe of each client in its table. A
  -- client process that was begun for a connection and has handled all that came before, and finds
  -- this message in the pipe, reads it, and in the next round of its answering thread tells its
  -- client "tg://2003/", closes its descriptors, and is gone. The byte on the stack behind the four
  -- digits is no digit, and malloc gives an address that is not live.
  pub handle_host_shutdown_signal-respond :
      (written : ℤ → ℤ) (ss : List Service) (free : List Slot) (counts : ℕ) (table : Slots)
      (globals : Context) (pid r w : ℕ) (before after : List Client) (calls : List Call)
      (t : System) (at : ℕ) (later : Stream)
      → a.to_child ≡ (pos r, pos w)
      → registered table ≡ before ++ entered a pid ∷ after
      → is_digit x ≡ false
      → Reached plugin (x ∷ more) array services (with_table xs g) (served a) calls t
      → IsIdle t.phase
      → t.pushed ≡ handled_events t.log
      → t.queue.heap at ≡ none
      → t.pipe ≡ chunk (codes "tg://1003/") ∷ later
      → ((sooner others : List Effect) × (handle_host_shutdown_signal written
              (record { table = some (map service ss ++ null ∷ free); counts = counts })
              (with_table table globals)
            ≡ ok (sooner ++ act (write_fd (pos w) (codes "tg://1003/")) ∷ others)))
        × (u : System) × (v : System) × (h : Handled) × (read_main (x ∷ more) (served a) at t
            ≡ ok u)
        × (respond plugin (x ∷ more) array services (with_table xs g) (served a) 1 u ≡ ok v)
        × (v.phase ≡ gone)
        × (v.log ≡ t.log ++ ((pos 1003, none), h) ∷ [])
        × (ends_with (codes "tg://2003/") xs g (served a) ≡ ok h)
  handle_host_shutdown_signal-respond written ss free counts table globals pid r w before after
        calls t at later pipe there d reached idle all z comes =
      let message = codes "tg://1003/" in
      let written_there : writes_to written message (registered table)
          ≡ writes_to written message before
            ++ write_fd (pos w) message ∷ writes_to written message after =
        ap (writes_to written message) there
        ∙ writes_to-here written message (entered a pid) w before after (rw pipe refl) in
      let (u, v, h, reads, ends, last, logged, said) =
        respond-ends_with plugin x more array services xs g (served a) message (codes "tg://2003/")
          1003 calls t at r later shutdown d reached idle all z (rw pipe refl) comes in
      (
        (
          map act (writes_to written message before),
          _,
          handle_host_shutdown_signal-destroys written ss free counts table globals
              ∙ ap
                  (λ acts. ok (
                    map act acts
                    ++ (map act (release_all (registered table))
                        ++ (map call (map destroy_call ss)
                            ++ map act (release_context (some globals))))))
                  written_there
              ∙ ap ok (
                  map-middle act (writes_to written message before) (write_fd (pos w) message)
                    (writes_to written message after) _),
        ),
        u,
        v,
        h,
        reads,
        ends,
        last,
        logged,
        said,
      )
