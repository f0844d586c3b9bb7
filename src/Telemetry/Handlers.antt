-- ===== src/Telemetry/Handlers.antt =====
-- `installGlobalErrorHandlers` of frontend/src/lib/errorReporter.ts, and the guard that
-- `installWebVitals` of frontend/src/lib/webVitals.ts shares with it. `window` exists. An installation is
-- named by its number; what a call returns removes its own listeners, or does nothing.
pub mod Single
use learn_pg.Prelude.{
  ℕ, zero, suc, ◌+◌, Bool, true, false, not, Option, none, some, List, [], ◌∷◌, ◌++◌, String,
  length, filter, if◌then◌else◌, ◌==◌, nat_eq,
}
use learn_pg.Events.{Value, number, text}
use learn_pg.Telemetry.Errors.{
  Raised, error, Source, uncaught, unhandledrejection, Reporter, report_error,
}

-- `installedListeners`, the installations whose listeners are in place, and how many were made.
pub record Handlers : Type 0 where
  pub installed_listeners : Bool
  pub live : List ℕ
  pub made : ℕ

abbrev pub unset : Handlers
unset = record { installed_listeners = false; live = []; made = 0 }

-- The cleanup that a call returns: `none` is `() => {}`.
abbrev pub cleanup_of : Handlers → Option ℕ
cleanup_of s = if s.installed_listeners then none else some s.made

unfoldable pub install : Handlers → Handlers
install s =
    if s.installed_listeners
    then s
    else record { installed_listeners = true; live = s.live ++ s.made ∷ []; made = s.made + 1 }

unfoldable pub clean_up : Option ℕ → Handlers → Handlers
clean_up none s = s
clean_up (some id) s = record s {
  installed_listeners = false;
  live = filter (λ i. not (i == id)) s.live;
}

pub data Call : Type 0 where
  installs : Call
  cleans_up : Option ℕ → Call

abbrev pub call : Call → Handlers → Handlers
call installs s = install s
call (cleans_up cleanup) s = clean_up cleanup s

unfoldable pub run : List Call → Handlers → Handlers
run [] s = s
run (c ∷ cs) s = run cs (call c s)

-- What the browser gives a listener.
pub data Failure : Type 0 where
  threw :
      (error : Option Raised)
      → (message filename : String) → (lineno colno : ℕ) → (new_stack : Option String) → Failure
  rejected : (reason : Raised) → Failure

-- `event.error ?? new Error(event.message)`, where the new error has a stack of its own.
abbrev pub raised_of : Option Raised → String → Option String → Raised
raised_of none message new_stack = error message "Error" new_stack
raised_of (some e) message new_stack = e

-- One listener's call of `reportError`.
unfoldable pub listen : ℕ → Option String → Failure → Reporter → Reporter
listen now href (threw e message filename lineno colno new_stack) s =
    report_error now href (raised_of e message new_stack) (some uncaught)
      (some
        (("filename", text filename) ∷ ("lineno", number lineno) ∷ ("colno", number colno) ∷ []))
      s
listen now href (rejected reason) s = report_error now href reason (some unhandledrejection) none s

abbrev pub for_each : List ℕ → (Reporter → Reporter) → Reporter → Reporter
for_each [] f s = s
for_each (i ∷ is) f s = for_each is f (f s)

-- The browser calls the listeners of every installation in place.
unfoldable pub dispatch_failure : ℕ → Option String → Failure → Handlers → Reporter → Reporter
dispatch_failure now href e h s = for_each h.live (listen now href e) s
