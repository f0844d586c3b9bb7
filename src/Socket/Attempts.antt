-- ===== src/Socket/Attempts.antt =====
-- The count of attempts.
use learn_pg.Prelude.{
  ℕ, ◌+◌, ◌<◌, ◌≤◌, ◌≡◌, refl, sym, subst, inl, inr, Bool, true, false, not, ◌||◌, Option, none,
  some, List, [], ◌∷◌, String, if◌then◌else◌, nat_eq, arith, Bool-cases, All,
}
use learn_pg.Api.Types.{JsonResult}
use learn_pg.Socket.Timers.{is_live, fired}
use learn_pg.Socket.Types.{
  Status, Ready, Config, Hook, initial, Moment, Event, accepted, received, errored, went_away,
  reconnect_due, heartbeat_due, stale_due,
}
use learn_pg.Socket.Refs.{
  update, is_closed, is_connecting, is_opened, is_busy, close_socket, clear_timers,
}
use learn_pg.Socket.Hook.{
  connect_unless, connecting_status, construct, reconnect_unless, at_cap, handle_error,
  handle_close, connect, mount, deliver, run,
}
use learn_pg.Socket.Phases.{Core, core}
use learn_pg.Socket.Phases.Steps.{
  core-beat, core-handle_open, core-handle_message, core-schedule_reconnect,
}

-- No construction of a socket throws in this history.
abbrev pub AllConstruct : List (Moment × Event) → Type 0
AllConstruct = All (λ p. p.0.construction ≡ none)

module _ (parse_json : String → JsonResult) (cfg : Config) where
  abbrev Within : Core → Type 0
  Within c = (c.should_reconnect ≡ true) × (c.attempts ≤ cfg.max_reconnect_attempts)

  guarded-Within :
      (b : Bool) (t s : Hook)
      → Within (core s)
      → Within (core t)
      → Within (core (if b then t else s))
  guarded-Within true t s q p = p
  guarded-Within false t s q p = q

  connect_unless-Within :
      (busy : Bool) (m : Moment) (s : Hook)
      → m.construction ≡ none
      → s.attempts ≤ cfg.max_reconnect_attempts
      → Within (core (connect_unless parse_json cfg busy m s))
  connect_unless-Within true m s e h = (refl, h)
  connect_unless-Within false m s e h =
      subst
        (λ o. Within (
          core (
            construct parse_json cfg o m (record s {
              should_reconnect = true;
              status = connecting_status parse_json cfg s.status;
              last_error = none;
            }))))
        (sym e) (refl, h)

  close_socket-Within :
      (s : Hook) (o : Option ℕ) → Within (core s) → Within (core (close_socket 4000 "stale" o s))
  close_socket-Within s none q = q
  close_socket-Within s (some w) q = q

  settles-Within :
      (m : Moment) (s : Hook)
      → 0 < cfg.max_reconnect_attempts
      → Within (core s)
      → Within (
          core (
            reconnect_unless parse_json cfg
              (not s.should_reconnect || at_cap parse_json cfg s.attempts)
              (at_cap parse_json cfg s.attempts)
              m
              s))
  settles-Within m s limited q = elim (Bool-cases (at_cap parse_json cfg s.attempts)) [
    | inl full ↦
        subst
          (λ b. Within (core (reconnect_unless parse_json cfg (not s.should_reconnect || b) b m s)))
          (sym full)
          (subst (λ b. Within (core (reconnect_unless parse_json cfg (not b || true) true m s)))
            (sym q.0) q)
    | inr more ↦
        let on : s.should_reconnect ≡ true = q.0 in
        let room : s.attempts + 1 ≤ cfg.max_reconnect_attempts = ground (arith, more, limited) in
        subst
          (λ b. Within (core (reconnect_unless parse_json cfg (not s.should_reconnect || b) b m s)))
          (sym more)
          (subst (λ b. Within (core (reconnect_unless parse_json cfg (not b || false) false m s)))
            (sym on)
            (subst Within
              (sym (
                core-schedule_reconnect parse_json cfg m (record s { status = Status.reconnecting })
                  on))
              (on, room)))
  ]

  deliver-Within :
      (m : Moment) (e : Event) (s : Hook)
      → 0 < cfg.max_reconnect_attempts
      → m.construction ≡ none
      → Within (core s)
      → Within (core (deliver parse_json cfg m e s))
  unfolding deliver handle_error handle_close clear_timers connect
  deliver-Within m (accepted w) s limited fine q =
      guarded-Within (is_connecting (s.ready w)) _ s q (
        subst Within
          (sym
            (core-handle_open parse_json cfg (record s { ready = update s.ready w Ready.opened })))
          (q.0, omega arith))
  deliver-Within m (received w t) s limited fine q =
      guarded-Within (is_opened (s.ready w)) _ s q
        (subst Within (sym (core-handle_message parse_json cfg m t s)) q)
  deliver-Within m (errored w) s limited fine q = guarded-Within (is_closed (s.ready w)) s _ q q
  deliver-Within m (went_away w code reason clean) s limited fine q =
      guarded-Within (is_closed (s.ready w)) s _ (settles-Within m _ limited q) q
  deliver-Within m (reconnect_due t) s limited fine q =
      guarded-Within (is_live t s.reconnect) _ s q (
        connect_unless-Within (is_busy s.ws_ref s.ready) m
          (record s { reconnect = fired t s.reconnect }) fine q.1)
  deliver-Within m (heartbeat_due t) s limited fine q =
      guarded-Within (is_live t s.heartbeat) _ s q
        (subst Within (sym (core-beat parse_json cfg s)) q)
  deliver-Within m (stale_due t) s limited fine q =
      guarded-Within (is_live t s.stale) _ s q
        (close_socket-Within (record s { stale = fired t s.stale }) s.ws_ref q)

  run-Within :
      (es : List (Moment × Event)) (s : Hook)
      → 0 < cfg.max_reconnect_attempts
      → AllConstruct es
      → Within (core s)
      → Within (core (run parse_json cfg es s))
  unfolding run
  run-Within [] s limited fine q = q
  run-Within ((m, e) ∷ rest) s limited fine q =
      run-Within rest (deliver parse_json cfg m e s) limited fine.1
        (deliver-Within m e s limited fine.0 q)

  -- With a limit on the attempts and no socket whose construction throws, the hook never counts more
  -- attempts than the limit, whatever the browser does after the mount.
  pub run-attempts :
      (m : Moment) (es : List (Moment × Event))
      → 0 < cfg.max_reconnect_attempts
      → m.construction ≡ none
      → AllConstruct es
      → (run parse_json cfg es (mount parse_json cfg m initial)).attempts
        ≤ cfg.max_reconnect_attempts
  unfolding mount connect
  run-attempts m es limited first fine =
      (run-Within es _ limited fine (
        connect_unless-Within false m (record initial { should_reconnect = true; attempts = 0 })
          first (omega arith))).1
