-- ===== src/EventStore.antt =====
-- frontend/src/stores/eventStore.ts: the store of the latest events.
pub mod History
mod Tests
use learn_pg.Prelude.{ℕ, ◌-◌, List, [], ◌∷◌, ◌++◌, slice_last}
use learn_pg.Events.{ProbeEvent}

pub record EventStore : Type 0 where
  pub events : List ProbeEvent

abbrev pub max_events : ℕ
max_events = 1000

abbrev pub empty : EventStore
empty = record { events = [] }

-- `slice(-MAX_EVENTS + 1)` drops what would make the new event the 1001st.
pub add_event : ProbeEvent → EventStore → EventStore
add_event e s = record { events = slice_last (max_events - 1) s.events ++ e ∷ [] }

pub clear_events : EventStore → EventStore
clear_events s = record { events = [] }

pub set_events : List ProbeEvent → EventStore → EventStore
set_events es s = record { events = slice_last max_events es }

-- The calls that clients make.
pub data Action : Type 0 where
  add : ProbeEvent → Action
  clear : Action
  replace : List ProbeEvent → Action

pub dispatch : Action → EventStore → EventStore
unfolding add_event clear_events set_events
dispatch (add e) s = add_event e s
dispatch clear s = clear_events s
dispatch (replace es) s = set_events es s

unfoldable pub run : List Action → EventStore → EventStore
unfolding dispatch
run [] s = s
run (a ∷ as') s = run as' (dispatch a s)
