-- ===== src/EventStore/Tests.antt =====
-- Tests of the event store.
use learn_pg.Prelude.{◌≡◌, refl, [], ◌∷◌}
use learn_pg.Events.{ProbeEvent}
use learn_pg.EventStore.{add, clear, empty, run}
use learn_pg.EventStore.History.{history, run-history}

abbrev ping : ProbeEvent
ping = record { type = "heartbeat"; timestamp = 1; pid = 2; seq = 3; event_data = [] }

run_once : (run (add ping ∷ clear ∷ add ping ∷ []) empty).events ≡ ping ∷ []
unfolding run
run_once = refl

run-history_example : (run (add ping ∷ clear ∷ add ping ∷ []) empty).events ≡ ping ∷ []
unfolding history
run-history_example = run-history (add ping ∷ clear ∷ add ping ∷ [])
