-- ===== src/Socket/Hook.antt =====
-- The functions inside `useWebSocket` of frontend/src/hooks/useWebSocket.ts. Handlers read the hook's
-- refs and not the socket that they belong to.
use learn_pg.Prelude.{
  ℕ, ◌+◌, Bool, true, false, ◌&&◌, ◌||◌, not, Option, none, some, List, [], ◌∷◌, String, ltb, leb,
  if◌then◌else◌, ◌==◌, nat_eq, string_eq, ◌++ₛ◌, show,
}
use learn_pg.Events.{text, number, bool}
use learn_pg.Backoff.{backoff_delay}
use learn_pg.Breadcrumbs.{Crumb, ws, error, info}
use learn_pg.Api.Types.{JsonResult, json_value, syntax_error}
use learn_pg.Socket.Timers.{clear, arm, is_live, fired}
use learn_pg.Socket.Refs.{
  emit, update, is_opened, is_connecting, is_closed, close_socket, clear_timers, is_busy,
  holds_open, was_open, is_ping,
}
use learn_pg.Socket.Types.{
  Status, Ready, Config, reconnects, heartbeats, goes_stale, breadcrumb, constructs, transmits,
  starts, adds_event, on_open, on_close, on_error, on_reconnect_failed, Hook, Moment, Event,
  accepted, received, errored, went_away, reconnect_due, heartbeat_due, stale_due, Payload, plain,
  stringified, refused,
}

module _ (parse_json : String → JsonResult) (cfg : Config) where
  unfoldable pub arm_stale_timer : Hook → Hook
  arm_stale_timer s =
      if cfg.stale_after_ms == 0
      then s
      else emit (starts goes_stale cfg.stale_after_ms)
          (record s { stale = arm s.next_timer (clear s.stale); next_timer = s.next_timer + 1 })

  -- The delay is drawn for `attemptsRef.current - 1` after the count went up.
  unfoldable pub schedule_reconnect : Moment → Hook → Hook
  schedule_reconnect m s =
      if s.should_reconnect
      then emit
          (starts reconnects
            (backoff_delay m.random s.attempts cfg.base_backoff_ms cfg.max_backoff_ms))
          (record s {
            attempts = s.attempts + 1;
            reconnect = arm s.next_timer s.reconnect;
            next_timer = s.next_timer + 1;
          })
      else s

  abbrev pub construct : Option String → Moment → Hook → Hook
  construct (some e) m s =
      schedule_reconnect m
        (record s { last_error = some ("WebSocket construction failed: " ++ₛ e) })
  construct none m s = emit (constructs cfg.url) (record s {
    ready = update s.ready s.created Ready.connecting;
    created = s.created + 1;
    ws_ref = some s.created;
    last_message_at = m.now;
  })

  abbrev pub connecting_status : Status → Status
  connecting_status p = if was_open p then Status.reconnecting else Status.connecting

  -- Unless the hook holds a socket that is open or connecting, a new one is made.
  abbrev pub connect_unless : (busy : Bool) → Moment → Hook → Hook
  connect_unless true m s = record s { should_reconnect = true }
  connect_unless false m s =
      construct m.construction m (record s {
        should_reconnect = true;
        status = connecting_status s.status;
        last_error = none;
      })

  unfoldable pub connect : Moment → Hook → Hook
  unfolding schedule_reconnect
  connect m s = connect_unless (is_busy s.ws_ref s.ready) m s

  abbrev pub open_crumb : Hook → Crumb
  open_crumb s = record {
    kind = ws;
    level = none;
    message = "WebSocket open: " ++ₛ cfg.url;
    details = ("url", text cfg.url) ∷ ("attempts", number s.attempts) ∷ [];
  }

  abbrev pub start_heartbeat : Hook → Hook
  start_heartbeat s =
      if cfg.heartbeat_ms == 0
      then s
      else emit (starts heartbeats cfg.heartbeat_ms)
          (record s { heartbeat = arm s.next_timer s.heartbeat; next_timer = s.next_timer + 1 })

  -- `ws.onopen`
  unfoldable pub handle_open : Hook → Hook
  unfolding arm_stale_timer
  handle_open s = arm_stale_timer (
      start_heartbeat (
        emit on_open (record (emit (breadcrumb (open_crumb s)) s) {
          attempts = 0;
          status = Status.opened;
          last_error = none;
        })))

  abbrev pub deliver_parsed : JsonResult → Hook → Hook
  deliver_parsed (syntax_error e) s = s
  deliver_parsed (json_value v) s = if is_ping v then s else emit (adds_event v) s

  -- `ws.onmessage`
  unfoldable pub handle_message : Moment → String → Hook → Hook
  unfolding arm_stale_timer
  handle_message m data' s =
      deliver_parsed (parse_json data') (arm_stale_timer (record s { last_message_at = m.now }))

  -- `atCap`
  abbrev pub at_cap : ℕ → Bool
  at_cap attempts = ltb 0 cfg.max_reconnect_attempts && leb cfg.max_reconnect_attempts attempts

  abbrev show_bool : Bool → String
  show_bool b = if b then "true" else "false"

  abbrev pub close_crumb : ℕ → String → Bool → ℕ → Crumb
  close_crumb code reason was_clean attempts = record {
    kind = ws;
    level = some (if at_cap attempts && not was_clean then error else info);
    message =
        if at_cap attempts
        then "WebSocket gave up after "
          ++ₛ show attempts
          ++ₛ " attempts: "
          ++ₛ cfg.url
          ++ₛ " (code="
          ++ₛ show code
          ++ₛ ")"
        else "WebSocket closed: "
          ++ₛ cfg.url
          ++ₛ " (code="
          ++ₛ show code
          ++ₛ ", clean="
          ++ₛ show_bool was_clean
          ++ₛ ")";
    details =
        ("url", text cfg.url)
        ∷ ("code", number code)
        ∷ ("reason", text reason)
        ∷ ("wasClean", bool was_clean)
        ∷ ("attempts", number attempts)
        ∷ ("atCap", bool (at_cap attempts))
        ∷ [];
  }

  abbrev pub give_up : (capped : Bool) → Hook → Hook
  give_up true s = record (emit (on_reconnect_failed s.attempts) s) { status = Status.closed }
  give_up false s = record s { status = Status.closed }

  abbrev pub reconnect_unless : (stops capped : Bool) → Moment → Hook → Hook
  reconnect_unless true capped m s = give_up capped s
  reconnect_unless false capped m s =
      schedule_reconnect m (record s { status = Status.reconnecting })

  -- The end of `ws.onclose`.
  abbrev pub settle_close : Moment → Hook → Hook
  settle_close m s =
      reconnect_unless (not s.should_reconnect || at_cap s.attempts) (at_cap s.attempts) m s

  -- `ws.onclose`
  unfoldable pub handle_close : Moment → ℕ → String → Bool → Hook → Hook
  unfolding clear_timers schedule_reconnect
  handle_close m code reason was_clean s = settle_close m (
      clear_timers
        (record (emit (on_close code reason was_clean)
          (emit (breadcrumb (close_crumb code reason was_clean s.attempts)) s)) { ws_ref = none }))

  abbrev pub error_crumb : Hook → Crumb
  error_crumb s = record {
    kind = ws;
    level = some error;
    message = "WebSocket error: " ++ₛ cfg.url;
    details = ("url", text cfg.url) ∷ ("attempts", number s.attempts) ∷ [];
  }

  -- `ws.onerror`
  unfoldable pub handle_error : Hook → Hook
  handle_error s =
      emit (on_error "WebSocket connection error") (record (emit (breadcrumb (error_crumb s)) s) {
        last_error = some "WebSocket connection error";
      })

  unfoldable pub disconnect : Hook → Hook
  unfolding clear_timers
  disconnect s =
      record (close_socket 1000 "client disconnect" s.ws_ref
        (record (clear_timers (record s { should_reconnect = false })) {
          status = Status.closed;
          last_error = none;
        })) { ws_ref = none }

  abbrev pub transmit : String → Option ℕ → Hook → Hook
  transmit payload none s = s
  transmit payload (some w) s = emit (transmits w payload) s

  abbrev pub send_payload : Payload → Hook → Hook
  send_payload (plain t) s = transmit t s.ws_ref s
  send_payload (stringified t) s = transmit t s.ws_ref s
  send_payload (refused e) s = record s { last_error = some ("send failed: " ++ₛ e) }

  unfoldable pub send : Payload → Hook → Hook
  send p s = if holds_open s.ws_ref s.ready then send_payload p s else s

  -- The callback of the heartbeat's interval.
  unfoldable pub beat : Hook → Hook
  beat s = if holds_open s.ws_ref s.ready then transmit "{\"type\":\"ping\"}" s.ws_ref s else s

  -- The effect that runs on mount.
  unfoldable pub mount : Moment → Hook → Hook
  unfolding connect
  mount m s = connect m (record s { should_reconnect = true; attempts = 0 })

  -- What the browser calls, if the state of the socket or timer lets it happen.
  unfoldable pub deliver : Moment → Event → Hook → Hook
  unfolding handle_open handle_message handle_error handle_close connect beat
  deliver m (accepted w) s =
      if is_connecting (s.ready w)
      then handle_open (record s { ready = update s.ready w Ready.opened })
      else s
  deliver m (received w data') s = if is_opened (s.ready w) then handle_message m data' s else s
  deliver m (errored w) s = if is_closed (s.ready w) then s else handle_error s
  deliver m (went_away w code reason was_clean) s =
      if is_closed (s.ready w)
      then s
      else handle_close m code reason was_clean (record s { ready = update s.ready w Ready.closed })
  deliver m (reconnect_due t) s =
      if is_live t s.reconnect then connect m (record s { reconnect = fired t s.reconnect }) else s
  deliver m (heartbeat_due t) s = if is_live t s.heartbeat then beat s else s
  deliver m (stale_due t) s =
      if is_live t s.stale
      then close_socket 4000 "stale" s.ws_ref (record s { stale = fired t s.stale })
      else s

  unfoldable pub run : List (Moment × Event) → Hook → Hook
  unfolding deliver
  run [] s = s
  run ((m, e) ∷ rest) s = run rest (deliver m e s)
