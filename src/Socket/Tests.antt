-- ===== src/Socket/Tests.antt =====
-- Tests of the connection.
use learn_pg.Prelude.{ℕ, ◌≤◌, ◌≡◌, refl, true, false, none, some, List, [], ◌∷◌, String, arith}
use learn_pg.Backoff.{Random}
use learn_pg.Api.Types.{JsonResult, syntax_error}
use learn_pg.Socket.Types.{
  Status, Ready, Config, Hook, initial, Moment, Event, accepted, received, errored, went_away,
  reconnect_due,
}
use learn_pg.Socket.Refs.{clear_timers}
use learn_pg.Socket.Hook.{
  mount, disconnect, connect, deliver, run, handle_open, handle_close, handle_message,
  schedule_reconnect, arm_stale_timer,
}
use learn_pg.Socket.Phases.{core, InPhase}
use learn_pg.Socket.Phases.Runs.{run-InPhase}
use learn_pg.Socket.Quiet.{IsQuiet, run-disconnect}
use learn_pg.Socket.Attempts.{run-attempts}

abbrev quarter : Random
quarter = record { numerator = 1; denominator = 4; below_one = omega arith }

abbrev at : ℕ → Moment
at t = record { now = t; random = quarter; construction = none }

abbrev no_json : String → JsonResult
no_json s = syntax_error "Unexpected token"

abbrev cfg : Config
cfg = record {
  url = "ws://localhost:3000/ws";
  base_backoff_ms = 500;
  max_backoff_ms = 30_000;
  max_reconnect_attempts = 2;
  heartbeat_ms = 25_000;
  stale_after_ms = 90_000;
}

-- The first connection opens and is lost; two attempts fail, and no third is made.
abbrev outage : List (Moment × Event)
outage =
    (at 10, accepted 0)
    ∷ (at 20, received 0 "x")
    ∷ (at 30, went_away 0 1006 "" false)
    ∷ (at 200, reconnect_due 4)
    ∷ (at 210, errored 1)
    ∷ (at 210, went_away 1 1006 "" false)
    ∷ (at 500, reconnect_due 5)
    ∷ (at 510, went_away 2 1006 "" false)
    ∷ (at 900, reconnect_due 6)
    ∷ []

gives_up :
    ((run no_json cfg outage (mount no_json cfg (at 0) initial)).status ≡ Status.closed)
    × ((run no_json cfg outage (mount no_json cfg (at 0) initial)).created ≡ 3)
    × ((run no_json cfg outage (mount no_json cfg (at 0) initial)).attempts ≡ 2)
unfolding run mount deliver connect handle_open handle_close handle_message clear_timers
    schedule_reconnect arm_stale_timer
gives_up = (refl, refl, refl)

run-InPhase_example : InPhase cfg (core (run no_json cfg outage (mount no_json cfg (at 0) initial)))
run-InPhase_example = run-InPhase no_json cfg (at 0) outage

run-disconnect_example :
    IsQuiet (run no_json cfg outage (mount no_json cfg (at 0) initial)).created (
      core (
        run no_json cfg
          ((at 1_000, accepted 0) ∷ (at 1_000, reconnect_due 4) ∷ [])
          (disconnect no_json cfg (run no_json cfg outage (mount no_json cfg (at 0) initial)))))
run-disconnect_example =
    run-disconnect no_json cfg (at 0) outage
      ((at 1_000, accepted 0) ∷ (at 1_000, reconnect_due 4) ∷ [])

run-attempts_example : (run no_json cfg outage (mount no_json cfg (at 0) initial)).attempts ≤ 2
run-attempts_example =
    run-attempts no_json cfg (at 0) outage (omega arith) refl
      (refl, (refl, (refl, (refl, (refl, (refl, (refl, (refl, (refl, tt)))))))))

-- A component that is mounted, unmounted and mounted again before the first socket has gone.
abbrev mounted_twice : Hook
mounted_twice = mount no_json cfg (at 2) (disconnect no_json cfg (mount no_json cfg (at 0) initial))

-- The close event of the first socket then makes the hook forget the second one, which is connecting.
late_close :
    ((deliver no_json cfg (at 3) (went_away 0 1000 "" true) mounted_twice).ws_ref ≡ none)
    × ((deliver no_json cfg (at 3) (went_away 0 1000 "" true) mounted_twice).ready 1
        ≡ Ready.connecting)
    × ((deliver no_json cfg (at 3) (went_away 0 1000 "" true) mounted_twice).reconnect.ref ≡ some 1)
unfolding mount connect disconnect clear_timers deliver handle_close schedule_reconnect
late_close = (refl, refl, refl)
