-- ===== src/Socket/Types.antt =====
-- The types of frontend/src/hooks/useWebSocket.ts, and what the browser and the hook tell each other.
use learn_pg.Prelude.{
  ℕ, Bool, true, Option, none, some, List, [], String, get_or, ◌++ₛ◌, if◌then◌else◌, ◌==◌,
  string_eq,
}
use learn_pg.Backoff.{Random}
use learn_pg.Breadcrumbs.{Crumb}
use learn_pg.Api.Errors.{Json}
use learn_pg.Socket.Timers.{Timer, no_timer}

-- `WebSocketStatus`, with `opened` for `open`.
pub data Status : Type 0 where
  idle connecting opened reconnecting closed : Status

-- The ready states of a `WebSocket`, with `opened` for `OPEN`.
pub data Ready : Type 0 where
  connecting opened closing closed : Ready

pub record Options : Type 0 where
  pub url : Option String
  pub base_backoff_ms : Option ℕ
  pub max_backoff_ms : Option ℕ
  pub max_reconnect_attempts : Option ℕ
  pub heartbeat_ms : Option ℕ
  pub stale_after_ms : Option ℕ

pub record Config : Type 0 where
  pub url : String
  pub base_backoff_ms : ℕ
  pub max_backoff_ms : ℕ
  pub max_reconnect_attempts : ℕ
  pub heartbeat_ms : ℕ
  pub stale_after_ms : ℕ

-- `location` is the protocol and the host of the page, where there is a window.
unfoldable pub default_ws_url : Option (String × String) → String
default_ws_url none = "ws://localhost:3000/ws"
default_ws_url (some (protocol, host)) =
    (if protocol == "https:" then "wss" else "ws") ++ₛ "://" ++ₛ host ++ₛ "/ws"

unfoldable pub config_of : Option (String × String) → Options → Config
config_of location o = record {
  url = get_or o.url (default_ws_url location);
  base_backoff_ms = get_or o.base_backoff_ms 500;
  max_backoff_ms = get_or o.max_backoff_ms 30_000;
  max_reconnect_attempts = get_or o.max_reconnect_attempts 0;
  heartbeat_ms = get_or o.heartbeat_ms 25_000;
  stale_after_ms = get_or o.stale_after_ms 90_000;
}

pub data Job : Type 0 where
  reconnects heartbeats goes_stale : Job

-- What the hook does to the world, in order. A socket is named by its number.
pub data Effect : Type 0 where
  breadcrumb : Crumb → Effect
  constructs : (url : String) → Effect
  closes : (socket code : ℕ) → (reason : String) → Effect
  transmits : (socket : ℕ) → (payload : String) → Effect
  starts : Job → (delay : ℕ) → Effect
  adds_event : Json → Effect
  on_open : Effect
  on_close : (code : ℕ) → (reason : String) → (was_clean : Bool) → Effect
  on_error : (message : String) → Effect
  on_reconnect_failed : (attempts : ℕ) → Effect

-- The refs and the state of the hook, and the sockets that it has made: the first `created` numbers.
pub record Hook : Type 0 where
  pub ready : ℕ → Ready
  pub created : ℕ
  pub ws_ref : Option ℕ
  pub reconnect : Timer
  pub heartbeat : Timer
  pub stale : Timer
  pub next_timer : ℕ
  pub attempts : ℕ
  pub should_reconnect : Bool
  pub last_message_at : ℕ
  pub status : Status
  pub last_error : Option String
  pub effects : List Effect

abbrev pub initial : Hook
initial = record {
  ready = λ i. Ready.closed;
  created = 0;
  ws_ref = none;
  reconnect = no_timer;
  heartbeat = no_timer;
  stale = no_timer;
  next_timer = 1;
  attempts = 0;
  should_reconnect = true;
  last_message_at = 0;
  status = Status.idle;
  last_error = none;
  effects = [];
}

-- What the browser answers at a moment: `construction` is the message of the error that
-- `new WebSocket` throws, if it does.
pub record Moment : Type 0 where
  pub now : ℕ
  pub random : Random
  pub construction : Option String

-- What the browser calls: the handlers of a socket, and the callbacks of timers.
pub data Event : Type 0 where
  accepted : (socket : ℕ) → Event
  received : (socket : ℕ) → (text : String) → Event
  errored : (socket : ℕ) → Event
  went_away : (socket code : ℕ) → (reason : String) → (was_clean : Bool) → Event
  reconnect_due : (timer : ℕ) → Event
  heartbeat_due : (timer : ℕ) → Event
  stale_due : (timer : ℕ) → Event

-- What `send` is given: a text, or a value that `JSON.stringify` makes a text or refuses.
pub data Payload : Type 0 where
  plain : String → Payload
  stringified : String → Payload
  refused : (message : String) → Payload
