-- ===== src/Socket/Refs.antt =====
-- What the functions of `useWebSocket` in frontend/src/hooks/useWebSocket.ts have in common: effects,
-- the states of sockets, and the refs.
use learn_pg.Prelude.{
  ℕ, Bool, true, false, ◌||◌, Option, none, some, [], ◌∷◌, ◌++◌, String, if◌then◌else◌, ◌==◌,
  nat_eq, string_eq,
}
use learn_pg.Api.Errors.{Json, obj, member}
use learn_pg.Socket.Timers.{clear}
use learn_pg.Socket.Types.{Status, Ready, Effect, closes, Hook}

abbrev pub emit : Effect → Hook → Hook
emit e s = record s { effects = s.effects ++ e ∷ [] }

abbrev pub update : (ℕ → Ready) → ℕ → Ready → ℕ → Ready
update f i r j = if j == i then r else f j

abbrev pub is_opened : Ready → Bool
is_opened Ready.opened = true
is_opened _ = false

abbrev pub is_connecting : Ready → Bool
is_connecting Ready.connecting = true
is_connecting _ = false

abbrev pub is_closed : Ready → Bool
is_closed Ready.closed = true
is_closed _ = false

-- `ws.close()`, by its documentation: a socket that is closing or closed stays so.
abbrev pub closing_of : Ready → Ready
closing_of Ready.closed = Ready.closed
closing_of _ = Ready.closing

abbrev pub close_socket : ℕ → String → Option ℕ → Hook → Hook
close_socket code reason none s = s
close_socket code reason (some w) s =
    emit (closes w code reason) (record s { ready = update s.ready w (closing_of (s.ready w)) })

unfoldable pub clear_timers : Hook → Hook
clear_timers s = record s {
  reconnect = clear s.reconnect;
  heartbeat = clear s.heartbeat;
  stale = clear s.stale;
}

-- Whether `connect` finds a socket that is open or connecting.
abbrev pub is_busy : Option ℕ → (ℕ → Ready) → Bool
is_busy none ready = false
is_busy (some w) ready = is_opened (ready w) || is_connecting (ready w)

abbrev pub holds_open : Option ℕ → (ℕ → Ready) → Bool
holds_open none ready = false
holds_open (some w) ready = is_opened (ready w)

abbrev pub was_open : Status → Bool
was_open Status.opened = true
was_open _ = false

-- `event && event.type === 'ping'`
abbrev pub is_ping_type : Option Json → Bool
is_ping_type (some (Json.text t)) = t == "ping"
is_ping_type _ = false

abbrev pub is_ping : Json → Bool
is_ping (obj fs) = is_ping_type (member "type" fs)
is_ping _ = false
