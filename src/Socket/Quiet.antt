-- ===== src/Socket/Quiet.antt =====
-- The connection after `disconnect`.
use learn_pg.Prelude.{
  ℕ, ◌≡◌, refl, sym, ap, subst, ◌∙◌, inl, inr, Bool, true, false, not, ◌||◌, Option, none, some,
  List, [], ◌∷◌, String, if◌then◌else◌, arith, ◌==◌, nat_eq, beq_ne→ne, Bool-cases,
}
use learn_pg.Api.Types.{JsonResult}
use learn_pg.Socket.Timers.{is_live, fired, live-clear, live-clear_only, is_live-nil}
use learn_pg.Socket.Types.{
  Status, Ready, Config, Hook, initial, Moment, Event, accepted, received, errored, went_away,
  reconnect_due, heartbeat_due, stale_due,
}
use learn_pg.Socket.Refs.{
  update, is_closed, is_connecting, is_opened, closing_of, close_socket, clear_timers,
}
use learn_pg.Socket.Hook.{
  reconnect_unless, give_up, at_cap, handle_error, handle_close, mount, disconnect, deliver, run,
}
use learn_pg.Socket.Phases.{Core, core, InPhase}
use learn_pg.Socket.Phases.Steps.{core-beat}
use learn_pg.Socket.Phases.Runs.{run-InPhase}

-- Neither connecting nor open.
abbrev pub HasEnded : Ready → Type 0
HasEnded r = (is_connecting r ≡ false) × (is_opened r ≡ false)

-- No attempt is pending or will be made, no socket is connecting or open, the status is `closed`, and
-- `n` sockets have been made.
abbrev pub IsQuiet : ℕ → Core → Type 0
IsQuiet n c =
    (c.should_reconnect ≡ false)
    × (c.reconnect.live ≡ [])
    × (c.status ≡ Status.closed)
    × ((i : ℕ) → HasEnded (c.ready i))
    × (c.created ≡ n)

closed-HasEnded : (r : Ready) → r ≡ Ready.closed → HasEnded r
closed-HasEnded r h = (ap is_connecting h, ap is_opened h)

closing-HasEnded : (r : Ready) → HasEnded (closing_of r)
closing-HasEnded Ready.connecting = (refl, refl)
closing-HasEnded Ready.opened = (refl, refl)
closing-HasEnded Ready.closing = (refl, refl)
closing-HasEnded Ready.closed = (refl, refl)

update-HasEnded :
    (f : ℕ → Ready) (w : ℕ) (r : Ready)
    → HasEnded r
    → ((i : ℕ) → (i == w) ≡ false → HasEnded (f i))
    → (i : ℕ) → HasEnded (update f w r i)
update-HasEnded f w r h others i = elim (Bool-cases (i == w)) [
  | inl same ↦ subst (λ b. HasEnded (if b then r else f i)) (sym same) h
  | inr other ↦ subst (λ b. HasEnded (if b then r else f i)) (sym other) (others i other)
]

close_socket-IsQuiet :
    (n : ℕ) (s : Hook) (o : Option ℕ)
    → IsQuiet n (core s)
    → IsQuiet n (core (close_socket 4000 "stale" o s))
close_socket-IsQuiet n s none q = q
close_socket-IsQuiet n s (some w) (off, idle, shown, ended, made) = (
  off,
  idle,
  shown,
  update-HasEnded s.ready w _ (closing-HasEnded (s.ready w)) (λ i d. ended i),
  made,
)

module _ (parse_json : String → JsonResult) (cfg : Config) where
  -- A step under a condition that does not hold.
  skipped :
      (n : ℕ) (b : Bool) (t s : Hook)
      → IsQuiet n (core s)
      → b ≡ false
      → IsQuiet n (core (if b then t else s))
  skipped n b t s q h = subst (λ c. IsQuiet n (core (if c then t else s))) (sym h) q

  guarded-IsQuiet :
      (n : ℕ) (b : Bool) (t s : Hook)
      → IsQuiet n (core s)
      → IsQuiet n (core t)
      → IsQuiet n (core (if b then t else s))
  guarded-IsQuiet n true t s q p = p
  guarded-IsQuiet n false t s q p = q

  give_up-IsQuiet :
      (n : ℕ) (capped : Bool) (s : Hook)
      → IsQuiet n (core (record s { status = Status.closed }))
      → IsQuiet n (core (give_up parse_json cfg capped s))
  give_up-IsQuiet n true s q = q
  give_up-IsQuiet n false s q = q

  stays-IsQuiet :
      (n : ℕ) (m : Moment) (s : Hook)
      → IsQuiet n (core (record s { status = Status.closed }))
      → IsQuiet n (
          core (
            reconnect_unless parse_json cfg
              (not s.should_reconnect || at_cap parse_json cfg s.attempts)
              (at_cap parse_json cfg s.attempts)
              m
              s))
  stays-IsQuiet n m s q =
      subst
        (λ b. IsQuiet n (
          core (
            reconnect_unless parse_json cfg (not b || at_cap parse_json cfg s.attempts)
              (at_cap parse_json cfg s.attempts) m s)))
        (sym q.0) (give_up-IsQuiet n (at_cap parse_json cfg s.attempts) s q)

  deliver-IsQuiet :
      (n : ℕ) (m : Moment) (e : Event) (s : Hook)
      → IsQuiet n (core s)
      → IsQuiet n (core (deliver parse_json cfg m e s))
  unfolding deliver handle_error handle_close clear_timers
  deliver-IsQuiet n m (accepted w) s q = skipped n (is_connecting (s.ready w)) _ s q (q.3 w).0
  deliver-IsQuiet n m (received w t) s q = skipped n (is_opened (s.ready w)) _ s q (q.3 w).1
  deliver-IsQuiet n m (errored w) s q = guarded-IsQuiet n (is_closed (s.ready w)) s _ q q
  deliver-IsQuiet n m (went_away w code reason clean) s q =
      guarded-IsQuiet n (is_closed (s.ready w)) s _
        (stays-IsQuiet n m _ (
          q.0,
          live-clear s.reconnect q.1,
          refl,
          update-HasEnded s.ready w Ready.closed (refl, refl) (λ i d. q.3 i),
          q.4,
        ))
        q
  deliver-IsQuiet n m (reconnect_due t) s q =
      skipped n (is_live t s.reconnect) _ s q (is_live-nil t s.reconnect q.1)
  deliver-IsQuiet n m (heartbeat_due t) s q =
      guarded-IsQuiet n (is_live t s.heartbeat) _ s q
        (subst (IsQuiet n) (sym (core-beat parse_json cfg s)) q)
  deliver-IsQuiet n m (stale_due t) s q =
      guarded-IsQuiet n (is_live t s.stale) _ s q
        (close_socket-IsQuiet n (record s { stale = fired t s.stale }) s.ws_ref q)

  run-IsQuiet :
      (n : ℕ) (es : List (Moment × Event)) (s : Hook)
      → IsQuiet n (core s)
      → IsQuiet n (core (run parse_json cfg es s))
  unfolding run
  run-IsQuiet n [] s q = q
  run-IsQuiet n ((m, e) ∷ rest) s q =
      run-IsQuiet n rest (deliver parse_json cfg m e s) (deliver-IsQuiet n m e s q)

  -- The body of `disconnect`, by what the ref holds.
  cut-IsQuiet :
      (s : Hook) (o : Option ℕ)
      → s.ws_ref ≡ o
      → InPhase cfg (core s)
      → IsQuiet s.created (
          core
            (record (close_socket 1000 "client disconnect" o
              (record (clear_timers (record s { should_reconnect = false })) {
                status = Status.closed;
                last_error = none;
              })) { ws_ref = none }))
  unfolding clear_timers
  cut-IsQuiet s none e (on, inl (w, held, up, others, idle)) = absurd (cc (held, e))
  cut-IsQuiet s (some v) e (on, inl (w, held, up, others, idle)) =
      let same : v ≡ w = ground (arith, sym e ∙ held) in
      (
        refl,
        live-clear s.reconnect idle,
        refl,
        update-HasEnded s.ready v _ (closing-HasEnded (s.ready v))
            (λ i d. closed-HasEnded (s.ready i) (others i (λ p. beq_ne→ne i v d (p ∙ sym same)))),
        refl,
      )
  cut-IsQuiet s none e (on, inr (inl (t, unheld, shut, live, known))) = (
    refl,
    live-clear_only t s.reconnect live known,
    refl,
    (λ i. closed-HasEnded (s.ready i) (shut i)),
    refl,
  )
  cut-IsQuiet s none e (on, inr (inr (unheld, shut, idle, off, few, full))) =
      (refl, live-clear s.reconnect idle, refl, (λ i. closed-HasEnded (s.ready i) (shut i)), refl)
  cut-IsQuiet s (some v) e (on, inr (inl (t, unheld, shut, live, known))) = absurd (cc (unheld, e))
  cut-IsQuiet s (some v) e (on, inr (inr (unheld, shut, idle, off, few, full))) =
      absurd (cc (unheld, e))

  disconnect-IsQuiet :
      (s : Hook) → InPhase cfg (core s) → IsQuiet s.created (core (disconnect parse_json cfg s))
  unfolding disconnect clear_timers
  disconnect-IsQuiet s p = cut-IsQuiet s s.ws_ref refl p

  -- Once `disconnect` is called after a mount and any doings of the browser, nothing that the browser
  -- does makes a socket or an attempt: none is pending, no socket is connecting or open, the status
  -- stays `closed`, and the number of sockets made stays what it was.
  pub run-disconnect :
      (m : Moment) (before after : List (Moment × Event))
      → let s = run parse_json cfg before (mount parse_json cfg m initial) in
        IsQuiet s.created (core (run parse_json cfg after (disconnect parse_json cfg s)))
  run-disconnect m before after =
      let s : Hook = run parse_json cfg before (mount parse_json cfg m initial) in
      run-IsQuiet s.created after (disconnect parse_json cfg s)
        (disconnect-IsQuiet s (run-InPhase parse_json cfg m before))
