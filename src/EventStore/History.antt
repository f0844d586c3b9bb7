-- ===== src/EventStore/History.antt =====
-- The store against the unbounded history of events.
use learn_pg.Prelude.{◌≡◌, refl, ◌∙◌, ap, List, [], ◌∷◌, ◌++◌, slice_last}
use learn_pg.Prelude.{slice_last-push}
use learn_pg.Events.{ProbeEvent}
use learn_pg.EventStore.{EventStore, Action, add, clear, replace, empty, max_events, dispatch, run}

-- Every event since the last `clear` or `replace`, with no bound.
abbrev pub record_action : Action → List ProbeEvent → List ProbeEvent
record_action (add e) h = h ++ e ∷ []
record_action clear h = []
record_action (replace es) h = es

unfoldable pub history : List Action → List ProbeEvent → List ProbeEvent
history [] h = h
history (a ∷ rest) h = history rest (record_action a h)

abbrev pub Shows : EventStore → List ProbeEvent → Type 0
Shows s h = s.events ≡ slice_last max_events h

dispatch-Shows :
    (a : Action) (s : EventStore) (h : List ProbeEvent)
    → Shows s h
    → Shows (dispatch a s) (record_action a h)
unfolding dispatch
dispatch-Shows (add e) s h p = ap (λ l. slice_last 999 l ++ e ∷ []) p ∙ slice_last-push 998 h e
dispatch-Shows clear s h p = refl
dispatch-Shows (replace es) s h p = refl

run-Shows :
    (as' : List Action) (s : EventStore) (h : List ProbeEvent)
    → Shows s h
    → Shows (run as' s) (history as' h)
unfolding run history
run-Shows [] s h p = p
run-Shows (a ∷ rest) s h p =
    run-Shows rest (dispatch a s) (record_action a h) (dispatch-Shows a s h p)

-- After any calls on a new store, its events are the last 1000 of the whole history of events since
-- the last clearing or replacement, in order.
pub run-history :
    (as' : List Action) → (run as' empty).events ≡ slice_last max_events (history as' [])
run-history as' = run-Shows as' empty [] refl
