-- ===== src/Telemetry/Errors.antt =====
-- frontend/src/lib/errorReporter.ts: breadcrumbs, error reports and their batches. The module's
-- variables are the record `Reporter`; `now` is `Date.now()`, and `href` the address of the page.
pub mod History
pub mod Crumbs
pub mod Delivery
use learn_pg.Prelude.{
  ℕ, ◌+◌, ◌-◌, Bool, true, false, Option, none, some, List, [], ◌∷◌, ◌++◌, String, get_or,
  if◌then◌else◌, length, drop, ltb,
}
use learn_pg.Events.{Value}
use learn_pg.Breadcrumbs.{Crumb}
use learn_pg.Telemetry.Batch.{Batch, empty, push, fire, flush_now}

pub record Breadcrumb : Type 0 where
  pub crumb : Crumb
  pub timestamp : ℕ

pub data Source : Type 0 where
  uncaught unhandledrejection boundary manual : Source

-- The `unknown` that is reported: an `Error`, or another value, which is wrapped in a new `Error` with
-- the stack of the place that wraps it.
pub data Raised : Type 0 where
  error : (message name : String) → (stack : Option String) → Raised
  other : (as_string : String) → (stack : Option String) → Raised

pub record ErrorReport : Type 0 where
  pub message : String
  pub name : String
  pub stack : Option String
  pub source : Source
  pub url : Option String
  pub breadcrumbs : List Breadcrumb
  pub context : Option (List (String × Value))
  pub captured_at : ℕ

pub record ReporterOptions : Type 0 where
  pub endpoint : Option String
  pub max_breadcrumbs : Option ℕ
  pub enabled : Option Bool

pub record ReporterConfig : Type 0 where
  pub endpoint : String
  pub max_breadcrumbs : ℕ
  pub enabled : Bool

pub record Reporter : Type 0 where
  pub batch : Batch ErrorReport
  pub breadcrumbs : List Breadcrumb
  pub active_config : ReporterConfig

abbrev pub default_config : ReporterConfig
default_config = record { endpoint = "/api/telemetry/errors"; max_breadcrumbs = 50; enabled = true }

-- The module's variables at start, and after `__resetErrorReporterForTests`.
abbrev pub initial : Reporter
initial = record { batch = empty; breadcrumbs = []; active_config = default_config }

-- `splice(0, length - max)` if there are more than `max`.
abbrev pub trim_to : ℕ → List Breadcrumb → List Breadcrumb
trim_to max bs = if ltb max (length bs) then drop (length bs - max) bs else bs

unfoldable pub add_breadcrumb : ℕ → Crumb → Reporter → Reporter
add_breadcrumb now c s =
    if s.active_config.enabled
    then record s {
      breadcrumbs =
          trim_to s.active_config.max_breadcrumbs
            (s.breadcrumbs ++ record { crumb = c; timestamp = now } ∷ []);
    }
    else s

abbrev pub message_of : Raised → String
message_of (error message name stack) = message
message_of (other s stack) = s

abbrev pub name_of : Raised → String
name_of (error message name stack) = name
name_of (other s stack) = "Error"

abbrev pub stack_of : Raised → Option String
stack_of (error message name stack) = stack
stack_of (other s stack) = stack

abbrev pub report_of :
    ℕ → Option String → Raised → Source → Option (List (String × Value)) → Reporter → ErrorReport
report_of now href e source context s = record {
  message = message_of e;
  name = name_of e;
  stack = stack_of e;
  source = source;
  url = href;
  breadcrumbs = s.breadcrumbs;
  context = context;
  captured_at = now;
}

unfoldable pub report_error :
    ℕ
    → Option String
    → Raised
    → Option Source
    → Option (List (String × Value))
    → Reporter
    → Reporter
report_error now href e source context s =
    if s.active_config.enabled
    then record s {
      batch = push 1_000 now (report_of now href e (get_or source manual) context s) s.batch;
    }
    else s

unfoldable pub configure_error_reporter : ReporterOptions → Reporter → Reporter
configure_error_reporter o s = record s {
  active_config = record {
    endpoint = get_or o.endpoint "/api/telemetry/errors";
    max_breadcrumbs = get_or o.max_breadcrumbs 50;
    enabled = get_or o.enabled true;
  };
}

-- What happens to the reporter: calls of its functions, and the passing of time.
pub data Action : Type 0 where
  add : Crumb → Action
  report : Option String → Raised → Option Source → Option (List (String × Value)) → Action
  configure : ReporterOptions → Action
  flushes : Action
  tick : Action

abbrev pub after_batch :
    Reporter → Batch ErrorReport × List ErrorReport → Reporter × List ErrorReport
after_batch s (b, sent) = (record s { batch = b }, sent)

-- One action at a time, with the reports that are handed to the client, if any.
unfoldable pub step : ℕ → Action → Reporter → Reporter × List ErrorReport
unfolding add_breadcrumb report_error configure_error_reporter
step now (add c) s = (add_breadcrumb now c s, [])
step now (report href e source context) s = (report_error now href e source context s, [])
step now (configure o) s = (configure_error_reporter o s, [])
step now flushes s = after_batch s (flush_now s.batch)
step now tick s = after_batch s (fire now s.batch)

-- All that is sent in a run, in order, and the state at its end.
unfoldable pub run : List (ℕ × Action) → Reporter → Reporter × List ErrorReport
run [] s = (s, [])
run ((now, a) ∷ rest) s =
    let (s', sent) = step now a s in let (s'', more) = run rest s' in (s'', sent ++ more)
