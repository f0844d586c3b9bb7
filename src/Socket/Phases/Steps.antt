-- ===== src/Socket/Phases/Steps.antt =====
-- The phases of the connection over one call of the browser.
use learn_pg.Prelude.{
  ℕ, ◌+◌, ◌≡◌, refl, sym, ap, subst, ◌∙◌, inl, inr, true, false, ◌||◌, not, Option, none, some, [],
  ◌∷◌, String, ◌==◌, nat_eq, arith, Bool-cases,
}
use learn_pg.Api.Types.{JsonResult, json_value, syntax_error}
use learn_pg.Socket.Timers.{arm}
use learn_pg.Socket.Types.{Status, Ready, Config, Hook, Moment}
use learn_pg.Socket.Refs.{is_ping, is_busy, holds_open}
use learn_pg.Socket.Hook.{
  at_cap, arm_stale_timer, deliver_parsed, handle_open, handle_message, settle_close,
  reconnect_unless, connect_unless, connecting_status, schedule_reconnect, connect, construct, beat,
  transmit,
}
use learn_pg.Socket.Phases.{core, AllClosed, InPhase, but-update, update_same}

module _ (parse_json : String → JsonResult) (cfg : Config) where
  core-arm_stale_timer : (s : Hook) → core (arm_stale_timer parse_json cfg s) ≡ core s
  unfolding arm_stale_timer
  core-arm_stale_timer s = ground arith

  pub core-handle_message :
      (m : Moment) (t : String) (s : Hook) → core (handle_message parse_json cfg m t s) ≡ core s
  unfolding handle_message
  core-handle_message m t s =
      delivered (parse_json t)
        (arm_stale_timer parse_json cfg (record s { last_message_at = m.now }))
      ∙ core-arm_stale_timer (record s { last_message_at = m.now })
    where
      delivered : (r : JsonResult) (u : Hook) → core (deliver_parsed parse_json cfg r u) ≡ core u
      delivered (syntax_error e) u = refl
      delivered (json_value v) u = elim (Bool-cases (is_ping v)) [
        | inl ping ↦ rw ping refl
        | inr other ↦ rw other refl
      ]

  pub core-handle_open :
      (s : Hook)
      → core (handle_open parse_json cfg s)
        ≡ record (core s) { attempts = 0; status = Status.opened }
  unfolding handle_open
  core-handle_open s =
      core-arm_stale_timer _
      ∙ elim (Bool-cases (cfg.heartbeat_ms == 0)) [ inl off ↦ rw off refl | inr on ↦ rw on refl ]

  pub core-beat : (s : Hook) → core (beat parse_json cfg s) ≡ core s
  unfolding beat
  core-beat s = elim (Bool-cases (holds_open s.ws_ref s.ready)) [
    | inl up ↦ rw up (sent s.ws_ref)
    | inr down ↦ rw down refl
  ]
    where
      sent : (o : Option ℕ) → core (transmit parse_json cfg "{\"type\":\"ping\"}" o s) ≡ core s
      sent none = refl
      sent (some w) = refl

  pub core-schedule_reconnect :
      (m : Moment) (s : Hook)
      → s.should_reconnect ≡ true
      → core (schedule_reconnect parse_json cfg m s)
        ≡ record (core s) { attempts = s.attempts + 1; reconnect = arm s.next_timer s.reconnect }
  unfolding schedule_reconnect
  core-schedule_reconnect m s h = rw h refl

  -- With every socket closed and nothing pending, a scheduled attempt is the one that is awaited.
  waits-InPhase :
      (m : Moment) (s : Hook)
      → s.should_reconnect ≡ true
      → s.ws_ref ≡ none
      → AllClosed s.ready
      → s.reconnect.live ≡ []
      → InPhase cfg (core (schedule_reconnect parse_json cfg m s))
  waits-InPhase m s on unheld shut idle =
      subst (InPhase cfg) (sym (core-schedule_reconnect m s on))
        (on, inr (inl (s.next_timer, unheld, shut, ap (λ l. s.next_timer ∷ l) idle, refl)))

  pub settle_close-InPhase :
      (m : Moment) (s : Hook)
      → s.should_reconnect ≡ true
      → s.ws_ref ≡ none
      → AllClosed s.ready
      → s.reconnect.live ≡ []
      → InPhase cfg (core (settle_close parse_json cfg m s))
  settle_close-InPhase m s on unheld shut idle =
      elim (Bool-cases (at_cap parse_json cfg s.attempts)) [
        | inl full ↦
            subst
              (λ b.
                InPhase cfg
                  (core (reconnect_unless parse_json cfg (not s.should_reconnect || b) b m s)))
              (sym full)
              (subst
                (λ b. InPhase cfg (core (reconnect_unless parse_json cfg (not b || true) true m s)))
                (sym on)
                (
                  on,
                  inr (inr (unheld, shut, idle, refl, ground (arith, full), ground (arith, full))),
                ))
        | inr more ↦
            subst
              (λ b.
                InPhase cfg
                  (core (reconnect_unless parse_json cfg (not s.should_reconnect || b) b m s)))
              (sym more)
              (subst
                (λ b.
                  InPhase cfg (core (reconnect_unless parse_json cfg (not b || false) false m s)))
                (sym on)
                (waits-InPhase m (record s { status = Status.reconnecting }) on unheld shut idle))
      ]

  construct-InPhase :
      (o : Option String) (m : Moment) (s : Hook)
      → s.should_reconnect ≡ true
      → s.ws_ref ≡ none
      → AllClosed s.ready
      → s.reconnect.live ≡ []
      → InPhase cfg (core (construct parse_json cfg o m s))
  construct-InPhase (some e) m s on unheld shut idle =
      waits-InPhase m (record s { last_error = _ }) on unheld shut idle
  construct-InPhase none m s on unheld shut idle = (
    on,
    inl (
      s.created,
      refl,
      rw (update_same s.ready s.created Ready.connecting) refl,
      but-update s.ready s.created Ready.connecting (λ i n. shut i),
      idle,
    ),
  )

  pub connect-InPhase :
      (m : Moment) (s : Hook)
      → s.ws_ref ≡ none
      → AllClosed s.ready
      → s.reconnect.live ≡ []
      → InPhase cfg (core (connect parse_json cfg m s))
  unfolding connect
  connect-InPhase m s unheld shut idle =
      subst (λ o. InPhase cfg (core (connect_unless parse_json cfg (is_busy o s.ready) m s)))
        (sym unheld)
        (construct-InPhase m.construction m
          (record s {
            should_reconnect = true;
            status = connecting_status parse_json cfg s.status;
            last_error = none;
          })
          refl unheld shut idle)
