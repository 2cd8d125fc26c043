-- ===== src/Process/Shutdown.antt =====
-- tg_process.c: what a child closes before it serves, and the shutdown of the server.
use tgserver.Base.{
  leb_int, ℕ, ◌≡◌, refl, sym, ap, ◌∙◌, true, false, List, [], ◌∷◌, ◌++◌, map, none, some, length,
  replicate, length-replicate, ℤ, ok,
}
use tgserver.Context.{
  Context, Server, Slots, State, Action, close_fd, release_context, release, released,
}
use tgserver.Context.Loops.{registered, registered-replicate}
use tgserver.Context.Table.{with_table}
use tgserver.Context.Counts.{release_all, close_all_client-release_all, release-release_all}
use tgserver.Context.Signals.{is_minus_one}
use tgserver.Context.Signals.Lists.{writes_to, send_signal_to_all_clients-writes_to}
use tgserver.Service.{Service, Slot, null, service, destroy_call, destroy_all_services}
use tgserver.Response.{act, call, codes}
use tgserver.Process.{
  Arrival, child, exited, serving, do_accept, accept_child, served, handle_host_shutdown_signal,
}

-- A table of n empty slots.
abbrev pub emptied : ℕ → Context → State
emptied n g = record { clients = some (replicate n none); clients_ar_size = n; context = some g }

release-emptied :
    (n : ℕ) (g : Context) → release (emptied n g) ≡ ok (release_context (some g), released)
unfolding release_all
release-emptied n g =
    ap
      (λ m.
        release
          (record { clients = some (replicate n none); clients_ar_size = m; context = some g }))
      (sym (length-replicate n none))
    ∙ release-release_all (replicate n none) g
    ∙ ap (λ cs. ok (release_all cs ++ release_context (some g), released)) (registered-replicate n)

-- What a child closes of what it has from the main process: two pipe ends, the descriptors of the
-- other clients, the listening socket and the administrator's pipe.
abbrev pub child_closes : Arrival → Slots → Context → List Action
child_closes a xs g =
    close_fd a.to_main.0
    ∷ close_fd a.to_child.1
    ∷ (release_all (registered xs) ++ close_fd g.listenfd ∷ close_fd g.local_admin_fd ∷ [])

-- The child of a connection closes all that it has from the main process and empties its table.
-- Where maxClients are connected already it exits then, without a word to its client; else it
-- serves the client over its socket and the two other pipe ends.
pub do_accept-child :
    (a : Arrival) (xs : Slots) (g : Context) (v : Server)
    → is_minus_one a.sockfd ≡ false
    → g.server ≡ some v
    → (leb_int v.max_clients g.cur_client_counts ≡ true
        → do_accept a child (with_table xs g) ≡ ok (exited (child_closes a xs g)))
      × (leb_int v.max_clients g.cur_client_counts ≡ false
          → do_accept a child (with_table xs g)
            ≡ ok (serving (child_closes a xs g) (served a) (emptied (length xs) g)))
unfolding do_accept accept_child
do_accept-child a xs g v live e = (
  (λ h. rw (live, close_all_client-release_all xs g, e) (rw h refl)),
  λ h. rw (live, close_all_client-release_all xs g) (simp (e, h) refl),
)

destroy_each :
    (ss : List Service) (rest : List Slot) (counts : ℕ)
    → destroy_all_services
        (record { table = some (map service ss ++ null ∷ rest); counts = counts })
      ≡ ok (map destroy_call ss)
unfolding destroy_all_services
destroy_each [] rest counts = refl
destroy_each (p ∷ ss) rest counts = rw (destroy_each ss rest counts)

pub handle_host_shutdown_signal-destroys :
    (written : ℤ → ℤ) (ss : List Service) (rest : List Slot) (counts : ℕ) (xs : Slots) (g : Context)
    → handle_host_shutdown_signal written
        (record { table = some (map service ss ++ null ∷ rest); counts = counts })
        (with_table xs g)
      ≡ ok (
          map act (writes_to written (codes "tg://1003/") (registered xs))
          ++ (map act (release_all (registered xs))
              ++ (map call (map destroy_call ss) ++ map act (release_context (some g)))))
unfolding handle_host_shutdown_signal
handle_host_shutdown_signal-destroys written ss rest counts xs g =
    rw
      (
        send_signal_to_all_clients-writes_to written (codes "tg://1003/") xs g,
        close_all_client-release_all xs g,
        destroy_each ss rest counts,
        release-emptied (length xs) g,
      )
      refl
