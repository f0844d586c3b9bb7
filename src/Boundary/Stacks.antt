-- ===== src/Boundary/Stacks.antt =====
-- What the recovery panel and `onError` get of the stacks.
use learn_pg.Prelude.{
  ℕ, ◌+◌, ◌≤◌, ◌≡◌, refl, Option, none, some, List, [], ◌∷◌, length, take, length-take,
  length-append, All, get_or, leb, leb→le, nat_eq, Bool-cases, Option-cases, inl, inr, arith,
}
use learn_pg.Boundary.{
  Units, before_last_line, or_cut, marker, trim_stack, stack_limit_bytes, ErrorInfoView, Boundary,
  mounted, stack_of, get_derived_state_from_error, component_did_catch, Event, throws, resets, step,
  run,
}

AtMost : ℕ → Option Units → Type 0
AtMost n none = Unit {0}
AtMost n (some p) = length p ≤ n

before_last_line-AtMost : (cs : Units) → AtMost (length cs) (before_last_line cs)
unfolding before_last_line AtMost
before_last_line-AtMost [] = tt
before_last_line-AtMost (c ∷ cs) = elim (Option-cases (before_last_line cs)) [
  | inl e ↦ rw e (ground arith)
  | inr (p, e) ↦
      let all : AtMost (length cs) (before_last_line cs) = before_last_line-AtMost cs in
      let shorter : AtMost (length cs) (some p) = rw e at all in rw e (omega (arith, shorter))
]

or_cut-length :
    (o : Option Units) (cut : Units) → AtMost (length cut) o → length (or_cut o cut) ≤ length cut
unfolding AtMost
or_cut-length none cut h = omega arith
or_cut-length (some []) cut h = omega arith
or_cut-length (some (c ∷ cs)) cut h = h

-- A trimmed text is at most the marker longer than the limit.
length-trim_stack : (s : Units) (max : ℕ) → length (trim_stack s max) ≤ max + 14
unfolding trim_stack
length-trim_stack s max = elim (Bool-cases (leb (length s) max)) [
  | inl short ↦ rw short (omega (arith, leb→le (length s) max short))
  | inr long ↦
      let cut : Units = take max s in
      rw long (
        omega (
          arith,
          length-append (or_cut (before_last_line cut) cut) marker,
          or_cut-length (before_last_line cut) cut (before_last_line-AtMost cut),
          length-take max s,
        ))
]

-- The stacks that are kept are at most 4110 units long.
abbrev pub IsTrimmed : ErrorInfoView → Type 0
IsTrimmed i = (length i.stack ≤ 4_110) × (length i.component_stack ≤ 4_110)

abbrev pub ShowsTrimmed : Option ErrorInfoView → Type 0
ShowsTrimmed none = Unit {0}
ShowsTrimmed (some i) = IsTrimmed i

-- What `onError` has been told: no component stack.
abbrev pub ReportsBare : ErrorInfoView → Type 0
ReportsBare i = (length i.stack ≤ 4_110) × (i.component_stack ≡ [])

abbrev pub IsSound : Boundary → Type 0
IsSound s = ShowsTrimmed s.info × All ReportsBare s.reported

step-IsSound : (e : Event) (s : Boundary) → IsSound s → IsSound (step e s)
unfolding step get_derived_state_from_error component_did_catch
step-IsSound (throws derived_at caught_at e component_stack) s h =
    let own = length-trim_stack (stack_of e) stack_limit_bytes in
    let tree = length-trim_stack (get_or component_stack []) stack_limit_bytes in
    ((own, tree), ((own, refl), h.1))
step-IsSound resets s h = (tt, h.1)

run-keeps_IsSound : (es : List Event) (s : Boundary) → IsSound s → IsSound (run es s)
unfolding run
run-keeps_IsSound [] s h = h
run-keeps_IsSound (e ∷ es) s h = run-keeps_IsSound es (step e s) (step-IsSound e s h)

-- Whatever is thrown, the stacks that the recovery panel shows are at most 4110 UTF-16 units long, and
-- what `onError` is told never has a component stack.
pub run-IsSound : (es : List Event) → IsSound (run es mounted)
run-IsSound es = run-keeps_IsSound es mounted (tt, tt)
