-- ===== src/Boundary/Tests.antt =====
-- Tests of the error boundary.
use learn_pg.Prelude.{◌≡◌, refl, none, some, List, [], ◌∷◌, ◌++◌, map}
use learn_pg.Prelude.Number.{codes}
use learn_pg.Boundary.{
  Caught, before_last_line, trim_stack, marker, Event, throws, resets, mounted, run, step,
  component_did_catch, get_derived_state_from_error,
}
use learn_pg.Boundary.Stacks.{IsSound, run-IsSound}

abbrev thrown : Caught
thrown = record { message = codes "boom"; stack = some (codes "Error: boom") }

abbrev work : List Event
work = throws 4 5 thrown (some (codes "at App")) ∷ resets ∷ throws 7 8 thrown none ∷ []

run-IsSound_example : IsSound (run work mounted)
run-IsSound_example = run-IsSound work

-- The panel has the component stack, and `onError` has not.
stacks_told :
    (map
        (λ i. i.component_stack)
        (run (throws 4 5 thrown (some (codes "at App")) ∷ []) mounted).reported
      ≡ [] ∷ [])
    × ((run (throws 4 5 thrown (some (codes "at App")) ∷ []) mounted).info
        ≡ some record {
          error = thrown;
          stack = codes "Error: boom";
          component_stack = codes "at App";
          timestamp = 4;
        })
unfolding run step component_did_catch get_derived_state_from_error trim_stack
stacks_told = (refl, refl)

-- A text is cut at the last line break within the limit.
stack_cut : trim_stack (codes "ab\ncd\nef") 7 ≡ codes "ab\ncd" ++ marker
unfolding trim_stack before_last_line
stack_cut = refl
