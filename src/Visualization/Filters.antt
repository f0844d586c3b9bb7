-- ===== src/Visualization/Filters.antt =====
-- `asWalEvent` and its siblings in frontend/src/hooks/useVisualizationData.ts.
use learn_pg.Prelude.{Option, none, some, List, [], ◌∷◌, String, ◌==◌, string_eq}
use learn_pg.Prelude.{if◌then◌else◌}
use learn_pg.Events.{ProbeEvent}

abbrev pub as_kind : String → ProbeEvent → Option ProbeEvent
as_kind kind e = if e.type == kind then some e else none

unfoldable pub as_wal_event : ProbeEvent → Option ProbeEvent
as_wal_event = as_kind "wal_insert"

unfoldable pub as_buffer_event : ProbeEvent → Option ProbeEvent
as_buffer_event = as_kind "buffer_pin"

unfoldable pub as_xact_event : ProbeEvent → Option ProbeEvent
as_xact_event = as_kind "xact_state"

unfoldable pub as_heartbeat_event : ProbeEvent → Option ProbeEvent
as_heartbeat_event = as_kind "heartbeat"

-- `[...events].reverse().find(as)`: the last event that `as` accepts.
unfoldable pub latest : (ProbeEvent → Option ProbeEvent) → List ProbeEvent → Option ProbeEvent
latest as' [] = none
latest as' (e ∷ es) = elim (latest as' es) [ some l ↦ some l | none ↦ as' e ]
