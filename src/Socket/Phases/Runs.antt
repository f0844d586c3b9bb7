-- ===== src/Socket/Phases/Runs.antt =====
-- The phases of the connection over a run of the browser.
use learn_pg.Prelude.{
  ℕ, ◌≡◌, refl, sym, ap, subst, ◌∙◌, inl, inr, Bool, true, false, Option, none, some, List, [], ◌∷◌,
  String, if◌then◌else◌, nat_eq, arith,
}
use learn_pg.Api.Types.{JsonResult}
use learn_pg.Socket.Timers.{is_live, fired, live-clear, live-fired, is_live-nil}
use learn_pg.Socket.Types.{
  Ready, Config, Hook, initial, Moment, Event, accepted, received, errored, went_away,
  reconnect_due, heartbeat_due, stale_due,
}
use learn_pg.Socket.Refs.{
  update, is_closed, is_connecting, is_opened, closing_of, close_socket, clear_timers,
}
use learn_pg.Socket.Hook.{handle_open, handle_error, handle_close, mount, deliver, run}
use learn_pg.Socket.Phases.{
  Core, core, AllClosed, AllClosedBut, InPhase, held-of, closed-update, but-update, update_same,
  closed_not_connecting, closing-open,
}
use learn_pg.Socket.Phases.Steps.{
  core-handle_message, core-handle_open, core-beat, settle_close-InPhase, connect-InPhase,
}

-- A socket that is not closed is the one that is held.
connected-of :
    (cfg : Config) (c : Core) (w : ℕ)
    → InPhase cfg c
    → is_closed (c.ready w) ≡ false
    → (c.ws_ref ≡ some w) × AllClosedBut w c.ready × (c.reconnect.live ≡ [])
connected-of cfg c w (on, inl (v, held, up, others, idle)) h =
    let same : w ≡ v = held-of c.ready v w others h in
    (held ∙ ap some (sym same), subst (λ i. AllClosedBut i c.ready) (sym same) others, idle)
connected-of cfg c w (on, inr (inl (t, unheld, shut, live, known))) h =
    absurd (cc (ap is_closed (shut w), h))
connected-of cfg c w (on, inr (inr (unheld, shut, idle, off, few, full))) h =
    absurd (cc (ap is_closed (shut w), h))

-- A pending attempt is the only one, and no socket is left.
waiting-of :
    (cfg : Config) (c : Core) (t : ℕ)
    → InPhase cfg c
    → is_live t c.reconnect ≡ true
    → (c.ws_ref ≡ none) × AllClosed c.ready × ((fired t c.reconnect).live ≡ [])
waiting-of cfg c t (on, inl (v, held, up, others, idle)) h =
    absurd (cc (is_live-nil t c.reconnect idle, h))
waiting-of cfg c t (on, inr (inl (u, unheld, shut, live, known))) h =
    (unheld, shut, live-fired t u c.reconnect live h)
waiting-of cfg c t (on, inr (inr (unheld, shut, idle, off, few, full))) h =
    absurd (cc (is_live-nil t c.reconnect idle, h))

close_socket-InPhase :
    (cfg : Config) (s : Hook) (o : Option ℕ)
    → InPhase cfg (core s)
    → s.ws_ref ≡ o
    → InPhase cfg (core (close_socket 4000 "stale" o s))
close_socket-InPhase cfg s none p e = p
close_socket-InPhase cfg s (some w) (on, inl (v, held, up, others, idle)) e =
    let same : w ≡ v = ground (arith, sym e ∙ held) in
    subst (λ i. InPhase cfg (core (close_socket 4000 "stale" (some i) s))) (sym same)
      (
        on,
        inl (
          v,
          held,
          subst (λ r. is_closed r ≡ false) (sym (update_same s.ready v (closing_of (s.ready v))))
              (closing-open (s.ready v) up),
          but-update s.ready v (closing_of (s.ready v)) others,
          idle,
        ),
      )
close_socket-InPhase cfg s (some w) (on, inr (inl (t, unheld, shut, live, known))) e =
    absurd (cc (unheld, e))
close_socket-InPhase cfg s (some w) (on, inr (inr (unheld, shut, idle, off, few, full))) e =
    absurd (cc (unheld, e))

module _ (parse_json : String → JsonResult) (cfg : Config) where
  guarded :
      (b : Bool) (t s : Hook)
      → InPhase cfg (core s)
      → (b ≡ true → InPhase cfg (core t))
      → InPhase cfg (core (if b then t else s))
  guarded true t s p q = q refl
  guarded false t s p q = p

  unless_closed :
      (b : Bool) (t s : Hook)
      → InPhase cfg (core s)
      → (b ≡ false → InPhase cfg (core t))
      → InPhase cfg (core (if b then s else t))
  unless_closed true t s p q = p
  unless_closed false t s p q = q refl

  opens-InPhase :
      (s : Hook) (w : ℕ)
      → InPhase cfg (core s)
      → is_connecting (s.ready w) ≡ true
      → InPhase cfg
          (core (handle_open parse_json cfg (record s { ready = update s.ready w Ready.opened })))
  opens-InPhase s w p h =
      let (held, others, idle) =
        connected-of cfg (core s) w p (closed_not_connecting (s.ready w) h) in
      subst (InPhase cfg) (sym (core-handle_open parse_json cfg _)) (
        p.0,
        inl (
          w,
          held,
          ap is_closed (update_same s.ready w Ready.opened),
          but-update s.ready w Ready.opened others,
          idle,
        ),
      )

  closes-InPhase :
      (m : Moment) (s : Hook) (w code : ℕ) (reason : String) (clean : Bool)
      → InPhase cfg (core s)
      → is_closed (s.ready w) ≡ false
      → InPhase cfg (
          core (
            handle_close parse_json cfg m code reason clean
              (record s { ready = update s.ready w Ready.closed })))
  unfolding handle_close clear_timers
  closes-InPhase m s w code reason clean p h =
      let (held, others, idle) = connected-of cfg (core s) w p h in
      settle_close-InPhase parse_json cfg m _ p.0 refl (closed-update s.ready w others)
        (live-clear s.reconnect idle)

  deliver-InPhase :
      (m : Moment) (e : Event) (s : Hook)
      → InPhase cfg (core s)
      → InPhase cfg (core (deliver parse_json cfg m e s))
  unfolding deliver handle_error
  deliver-InPhase m (accepted w) s p =
      guarded (is_connecting (s.ready w)) _ s p (opens-InPhase s w p)
  deliver-InPhase m (received w t) s p =
      guarded (is_opened (s.ready w)) _ s p
        λ h. subst (InPhase cfg) (sym (core-handle_message parse_json cfg m t s)) p
  deliver-InPhase m (errored w) s p = unless_closed (is_closed (s.ready w)) _ s p λ h. p
  deliver-InPhase m (went_away w code reason clean) s p =
      unless_closed (is_closed (s.ready w)) _ s p (closes-InPhase m s w code reason clean p)
  deliver-InPhase m (reconnect_due t) s p = guarded (is_live t s.reconnect) _ s p λ h.
      let (unheld, shut, idle) = waiting-of cfg (core s) t p h in
      connect-InPhase parse_json cfg m (record s { reconnect = fired t s.reconnect }) unheld shut
        idle
  deliver-InPhase m (heartbeat_due t) s p =
      guarded (is_live t s.heartbeat) _ s p
        λ h. subst (InPhase cfg) (sym (core-beat parse_json cfg s)) p
  deliver-InPhase m (stale_due t) s p =
      guarded (is_live t s.stale) _ s p
        λ h. close_socket-InPhase cfg (record s { stale = fired t s.stale }) s.ws_ref p refl

  run-InPhase-of :
      (es : List (Moment × Event)) (s : Hook)
      → InPhase cfg (core s)
      → InPhase cfg (core (run parse_json cfg es s))
  unfolding run
  run-InPhase-of [] s p = p
  run-InPhase-of ((m, e) ∷ rest) s p =
      run-InPhase-of rest (deliver parse_json cfg m e s) (deliver-InPhase m e s p)

  -- From the mount on, whatever the browser does, and however often a socket cannot be constructed, the
  -- hook is in one of three phases: it holds the only socket that is not closed, and no attempt is
  -- pending; or all sockets are closed, and exactly one attempt is pending; or all are closed, none is
  -- pending, the status is `closed`, and a limit on the attempts has been reached.
  pub run-InPhase :
      (m : Moment) (es : List (Moment × Event))
      → InPhase cfg (core (run parse_json cfg es (mount parse_json cfg m initial)))
  unfolding mount
  run-InPhase m es = run-InPhase-of es _ (
      connect-InPhase parse_json cfg m (record initial { should_reconnect = true; attempts = 0 })
        refl (λ i. refl) refl)
