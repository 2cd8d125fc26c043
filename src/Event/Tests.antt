-- ===== src/Event/Tests.antt =====
-- tg_event.c: the theorems on a queue with one event.
use tgserver.Base.{pos, [], ◌∷◌, none, ◌≡◌, refl, ok}
use tgserver.Event.{Queue, no_events, push_event_to_queue, head}
use tgserver.Event.Cells.{Event}
use tgserver.Event.Refine.{Represents, Pops, no_events-Represents, push-Represents, head-Pops}

abbrev init_event : Event
init_event = (pos 1004, none)

-- The queue behind the push of CLIENT_INIT at address 64.
abbrev pushed :
    (q : Queue) × (push_event_to_queue 64 (pos 1004) none no_events ≡ ok q)
    × Represents q (init_event ∷ [])
pushed = push-Represents 64 (pos 1004) none no_events [] no_events-Represents refl

push-Represents_example :
    (q : Queue) × (push_event_to_queue 64 (pos 1004) none no_events ≡ ok q)
    × Represents q (init_event ∷ [])
push-Represents_example = push-Represents 64 (pos 1004) none no_events [] no_events-Represents refl

head-Pops_example : Pops (pushed.0) (init_event ∷ []) (head (pushed.0))
head-Pops_example = head-Pops (pushed.0) (init_event ∷ []) (pushed.2)
