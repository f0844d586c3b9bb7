-- ===== src/Telemetry/Tests.antt =====
-- Tests of the telemetry.
use learn_pg.Prelude.{
  ◌≤◌, ◌<◌, ◌↔◌, ℕ, ◌≡◌, ◌⊎◌, refl, true, false, none, some, List, [], ◌∷◌, ◌++◌, map, String,
  arith, last_n,
}
use learn_pg.Backoff.{Random}
use learn_pg.Breadcrumbs.{Crumb, log}
use learn_pg.Api.Errors.{dom_exception}
use learn_pg.Api.Types.{World, rejected, Config, JsonResult, syntax_error, json}
use learn_pg.Api.Retry.{send_count, slept, outcome}
use learn_pg.Telemetry.Post.{post, post_options, telemetry_options, post_once}
use learn_pg.Telemetry.Errors
use learn_pg.Telemetry.Errors.{Raised, error, other, manual}
use learn_pg.Telemetry.Handlers
use learn_pg.Telemetry.Handlers.{
  Call, installs, cleans_up, unset, install, clean_up, Failure, listen, dispatch_failure,
}
use learn_pg.Telemetry.Handlers.Single.{run-reports_once}
use learn_pg.Telemetry.Errors.History.{stamp, reported, run-reported}
use learn_pg.Telemetry.Errors.Crumbs.{crumbs, run-breadcrumbs}
use learn_pg.Telemetry.Errors.Delivery.{DeliversFrom, run-delivers}
use learn_pg.Telemetry.Vitals
use learn_pg.Telemetry.Vitals.{VitalName, lcp, cls, good, poor, rate, thresholds}
use learn_pg.Telemetry.Vitals.Ratings.{badness, rate_mono}
use learn_pg.Telemetry.Vitals.History.{key, measured, run-measured}

abbrev third : Random
third = record { numerator = 1; denominator = 3; below_one = omega arith }

abbrev offline : World
offline k = record {
  request_id = "id";
  aborted_before = false;
  aborted_during = false;
  result = rejected (dom_exception "TypeError" "Failed to fetch");
  random = third;
}

abbrev no_parse : String → JsonResult
no_parse s = syntax_error "Unexpected end"

abbrev client : Config
client = record {
  base_url = "http://localhost";
  default_timeout_ms = 15_000;
  max_retries = 3;
  base_backoff_ms = 250;
  max_backoff_ms = 4_000;
  on_retry = false;
}

post_once_example :
    (send_count
        (post no_parse client "/api/telemetry/errors" (json "{}") telemetry_options offline).effects
      ≡ 1)
    × (slept
          (post no_parse client "/api/telemetry/errors"
            (json "{}")
            telemetry_options
            offline).effects
        ≡ 0)
    × ((post no_parse client "/api/telemetry/errors" (json "{}") telemetry_options offline).settled
        ≡ outcome no_parse client "/api/telemetry/errors"
            (post_options (json "{}") telemetry_options)
            (offline 0))
post_once_example = post_once no_parse client "/api/telemetry/errors" (json "{}") offline

abbrev crumb : Crumb
crumb = record { kind = log; level = none; message = "m"; details = [] }

abbrev raised : Raised
raised = error "boom" "Error" none

abbrev trouble : List (ℕ × Errors.Action)
trouble =
    (1, Errors.add crumb)
    ∷ (2, Errors.report none raised none none)
    ∷ (3, Errors.tick)
    ∷ (1_002, Errors.tick)
    ∷ (1_003, Errors.report none raised none none)
    ∷ []

run-reported_example :
    map stamp
      ((Errors.run trouble Errors.initial).1 ++ (Errors.run trouble Errors.initial).0.batch.queue)
    ≡ ("boom", 2) ∷ ("boom", 1_003) ∷ []
unfolding reported
run-reported_example = run-reported trouble Errors.initial

run-breadcrumbs_example :
    (Errors.run trouble Errors.initial).0.breadcrumbs ≡ last_n 50 (crumbs trouble [])
run-breadcrumbs_example = run-breadcrumbs trouble Errors.initial tt refl refl

run-delivers_example :
    ((Errors.run trouble Errors.initial).0.batch.queue ≡ [])
    ⊎ ((due : ℕ) × ((Errors.run trouble Errors.initial).0.batch.flush_timer ≡ some due)
        × DeliversFrom due (Errors.run trouble Errors.initial).0)
run-delivers_example = run-delivers trouble

abbrev page_load : List (ℕ × Vitals.Action)
page_load =
    (
      1,
      Vitals.paint
          (record { start_time = 900; id = none } ∷ record { start_time = 1_200; id = none } ∷ []),
    )
    ∷ (2, Vitals.layout_shift (record { had_recent_input = false; value = 40 } ∷ []))
    ∷ (
      3,
      Vitals.layout_shift (
          record { had_recent_input = false; value = 60 }
          ∷ record { had_recent_input = true; value = 9 }
          ∷ []),
    )
    ∷ (5_001, Vitals.tick)
    ∷ []

run-measured_example :
    map key (
      (Vitals.run page_load Vitals.initial).1
      ++ (Vitals.run page_load Vitals.initial).0.batch.queue)
    ≡ (lcp, 1_200) ∷ (cls, 40) ∷ (cls, 100) ∷ []
unfolding measured
run-measured_example = run-measured page_load Vitals.initial

-- The cleanup of the first installation is called twice: it forgets that the second one is in place,
-- and a third is installed beside it.
late_cleanup :
    (Handlers.run
      (installs ∷ cleans_up (some 0) ∷ installs ∷ cleans_up (some 0) ∷ installs ∷ [])
      unset).live
    ≡ 1 ∷ 2 ∷ []
unfolding Handlers.run install clean_up
late_cleanup = refl

abbrev reloads : List Call
reloads = installs ∷ installs ∷ cleans_up (some 0) ∷ cleans_up none ∷ installs ∷ []

run-reports_once_example :
    dispatch_failure 7 none
      (Failure.rejected (other "timeout" none))
      (Handlers.run reloads unset)
      Errors.initial
    ≡ listen 7 none (Failure.rejected (other "timeout" none)) Errors.initial
unfolding Handlers.run install clean_up
run-reports_once_example =
    run-reports_once reloads 7 none (Failure.rejected (other "timeout" none)) Errors.initial
      (tt, (tt, (refl, (tt, (tt, tt)))))

rate_mono_example :
    (badness (rate lcp 2_500) ≤ badness (rate lcp 4_000))
    × ((rate lcp 2_500 ≡ good) ↔ (2_500 ≤ (thresholds lcp).0))
    × ((rate lcp 2_500 ≡ poor) ↔ ((thresholds lcp).1 < 2_500))
rate_mono_example = rate_mono lcp 2_500 4_000 (omega arith)
