-- ===== src/Telemetry/Errors/Delivery.antt =====
-- The reports that wait in the error reporter, and its timer.
use learn_pg.Prelude.{◌+◌, ℕ, ◌≡◌, refl, ◌⊎◌, inl, inr, some, List, [], ◌∷◌, arith, get_or}
use learn_pg.Telemetry.Batch.{IsArmed, push-IsArmed, fire-IsArmed, flush_now-IsArmed, fire}
use learn_pg.Telemetry.Errors.{
  Reporter, Action, add, report, configure, flushes, tick, report_of, manual, step, run, initial,
}

step-IsArmed :
    (s : Reporter) (now : ℕ) (a : Action) → IsArmed s.batch → IsArmed (step now a s).0.batch
unfolding step
step-IsArmed s now (add c) h = ground (arith, h)
step-IsArmed s now (report href e source context) h = ground (
  arith,
  h,
  push-IsArmed 1_000 now (report_of now href e (get_or source manual) context s) s.batch,
)
step-IsArmed s now (configure o) h = h
step-IsArmed s now flushes h = flush_now-IsArmed s.batch
step-IsArmed s now tick h = fire-IsArmed now s.batch h

run-IsArmed :
    (acts : List (ℕ × Action)) (s : Reporter) → IsArmed s.batch → IsArmed (run acts s).0.batch
unfolding run
run-IsArmed [] s h = h
run-IsArmed ((now, a) ∷ rest) s h = run-IsArmed rest (step now a s).0 (step-IsArmed s now a h)

-- The timer's callback at `due` or later sends the whole queue and leaves it empty.
abbrev pub DeliversFrom : ℕ → Reporter → Type 0
DeliversFrom due s =
    (late : ℕ)
    → ((step (due + late) tick s).1 ≡ s.batch.queue)
      × ((step (due + late) tick s).0.batch.queue ≡ [])

tick-delivers : (s : Reporter) (due : ℕ) → s.batch.flush_timer ≡ some due → DeliversFrom due s
unfolding step fire
tick-delivers s due e late = ground (arith, e)

-- After any history of a new reporter, either nothing is queued or a timer is set whose callback will
-- send all that is queued.
pub run-delivers :
    (acts : List (ℕ × Action))
    → let s = (run acts initial).0 in
      (s.batch.queue ≡ []) ⊎ ((due : ℕ) × (s.batch.flush_timer ≡ some due) × DeliversFrom due s)
run-delivers acts = elim (run-IsArmed acts initial (inl refl)) [
  | inl idle ↦ inl idle
  | inr (due, e) ↦ inr (due, e, tick-delivers (run acts initial).0 due e)
]
