-- ===== src/Boundary.antt =====
-- frontend/src/components/common/ErrorBoundary.tsx. A text is the list of its UTF-16 units, which is what
-- JavaScript measures and cuts. `on_error` is given; the times are arguments. A `setState` takes effect
-- after the method that calls it, as in React's commit phase.
pub mod Stacks
mod Tests
use learn_pg.Prelude.{
  ℕ, Bool, true, false, Option, none, some, List, [], ◌∷◌, ◌++◌, String, length, take, get_or,
  if◌then◌else◌, leb, ◌==◌, nat_eq,
}
use learn_pg.Prelude.Number.{codes}

abbrev pub Units : Type 0
Units = List ℕ

-- What stands before the last line break, if there is one: `cut.slice(0, cut.lastIndexOf('\n'))`.
unfoldable pub before_last_line : Units → Option Units
before_last_line [] = none
before_last_line (c ∷ cs) = elim (before_last_line cs) [
  | some p ↦ some (c ∷ p)
  | none ↦ if c == 10 then some [] else none
]

-- A line break at the start is none to stop at.
abbrev pub or_cut : Option Units → Units → Units
or_cut none cut = cut
or_cut (some []) cut = cut
or_cut (some (c ∷ cs)) cut = c ∷ cs

abbrev pub marker : Units
marker = 10 ∷ 8_230 ∷ codes " (truncated)"

unfoldable pub trim_stack : Units → ℕ → Units
unfolding before_last_line
trim_stack s max_bytes =
    if leb (length s) max_bytes
    then s
    else or_cut (before_last_line (take max_bytes s)) (take max_bytes s) ++ marker

abbrev pub stack_limit_bytes : ℕ
stack_limit_bytes = 4_096

pub record Caught : Type 0 where
  pub message : Units
  pub stack : Option Units

pub record ErrorInfoView : Type 0 where
  pub error : Caught
  pub stack : Units
  pub component_stack : Units
  pub timestamp : ℕ

-- `info`, what `onError` has been called with, and the `learn_pg:boundary` events, each the latest first.
pub record Boundary : Type 0 where
  pub info : Option ErrorInfoView
  pub reported : List ErrorInfoView
  pub dispatched : List (Caught × Option Units)

abbrev pub mounted : Boundary
mounted = record { info = none; reported = []; dispatched = [] }

abbrev pub stack_of : Caught → Units
stack_of e = get_or e.stack []

unfoldable pub get_derived_state_from_error : ℕ → Caught → Boundary → Boundary
unfolding trim_stack
get_derived_state_from_error now e s = record s {
  info = some (record {
    error = e;
    stack = trim_stack (stack_of e) stack_limit_bytes;
    component_stack = [];
    timestamp = now;
  });
}

-- `(prev) => prev.info ? { info: { ...prev.info, componentStack } } : null`
abbrev pub with_component_stack : Units → Option ErrorInfoView → Option ErrorInfoView
with_component_stack cs none = none
with_component_stack cs (some i) = some (record i { component_stack = cs })

unfoldable pub component_did_catch : ℕ → Caught → Option Units → Boundary → Boundary
unfolding trim_stack
component_did_catch now e component_stack s = record {
  info = with_component_stack (trim_stack (get_or component_stack []) stack_limit_bytes) s.info;
  reported =
      get_or s.info (record {
        error = e;
        stack = trim_stack (stack_of e) stack_limit_bytes;
        component_stack = get_or component_stack [];
        timestamp = now;
      })
      ∷ s.reported;
  dispatched = (e, component_stack) ∷ s.dispatched;
}

pub data Event : Type 0 where
  -- A descendant throws while it renders: React derives the state, and then tells of the error.
  throws : (derived_at caught_at : ℕ) → Caught → (component_stack : Option Units) → Event
  resets : Event

unfoldable pub step : Event → Boundary → Boundary
unfolding get_derived_state_from_error component_did_catch
step (throws derived_at caught_at e component_stack) s =
    component_did_catch caught_at e component_stack (get_derived_state_from_error derived_at e s)
step resets s = record s { info = none }

unfoldable pub run : List Event → Boundary → Boundary
unfolding step
run [] s = s
run (e ∷ es) s = run es (step e s)
