-- ===== src/Telemetry/Errors/History.antt =====
-- The error reporter against the history of what was reported and of the breadcrumbs.
use mathlib.Core.List.{map-append, append-nil}
use learn_pg.Prelude.{
  ℕ, ◌≡◌, refl, sym, ap, ◌∙◌, Bool, true, false, List, [], ◌∷◌, ◌++◌, map, String, get_or,
  if◌then◌else◌, arith,
}
use learn_pg.Telemetry.Batch.{fire-Conserves, flush_now-Conserves, sent_glue, queue-push, sent_glue}
use learn_pg.Telemetry.Errors.{
  ErrorReport, Reporter, message_of, Action, add, report, configure, flushes, tick, report_of,
  manual, step, run,
}

-- What tells reports apart here: the message and the time.
abbrev pub stamp : ErrorReport → String × ℕ
stamp r = (r.message, r.captured_at)

abbrev enabled_after : Action → Bool → Bool
enabled_after (configure o) on = get_or o.enabled true
enabled_after _ on = on

abbrev stamps_of : ℕ → Action → List (String × ℕ)
stamps_of now (report href e source context) = (message_of e, now) ∷ []
stamps_of now _ = []

-- The reports that a history of actions asks for while the reporter is enabled.
unfoldable pub reported : Bool → List (ℕ × Action) → List (String × ℕ)
reported on [] = []
reported on ((now, a) ∷ rest) =
    (if on then stamps_of now a else []) ++ reported (enabled_after a on) rest

abbrev StepConserves : Reporter → ℕ → Action → Reporter × List ErrorReport → Type 0
StepConserves s now a r =
    (map stamp (r.1 ++ r.0.batch.queue)
      ≡ map stamp s.batch.queue ++ (if s.active_config.enabled then stamps_of now a else []))
    × (r.0.active_config.enabled ≡ enabled_after a s.active_config.enabled)

-- Nothing is asked for, whether or not the reporter is enabled.
nothing : (on : Bool) (xs : List (String × ℕ)) → xs ≡ xs ++ (if on then [] else [])
nothing true xs = sym (append-nil xs)
nothing false xs = sym (append-nil xs)

step-conserves : (s : Reporter) (now : ℕ) (a : Action) → StepConserves s now a (step now a s)
unfolding step
step-conserves s now (add c) =
    ground (arith, nothing s.active_config.enabled (map stamp s.batch.queue))
step-conserves s now (report href e source context) = ground (
  arith,
  append-nil (map stamp s.batch.queue),
  queue-push 1_000 now (report_of now href e (get_or source manual) context s) s.batch,
  map-append stamp s.batch.queue (report_of now href e (get_or source manual) context s ∷ []),
)
step-conserves s now (configure o) =
    (nothing s.active_config.enabled (map stamp s.batch.queue), refl)
step-conserves s now flushes = (
  ap (map stamp) (flush_now-Conserves s.batch)
      ∙ nothing s.active_config.enabled (map stamp s.batch.queue),
  refl,
)
step-conserves s now tick = (
  ap (map stamp) (fire-Conserves now s.batch)
      ∙ nothing s.active_config.enabled (map stamp s.batch.queue),
  refl,
)

-- Over any run, the reports that were sent and then those still queued are those that were queued at
-- first and then those asked for while the reporter was enabled: none is lost, made up, sent twice, or
-- sent out of order.
pub run-reported :
    (acts : List (ℕ × Action)) (s : Reporter)
    → let (end, sent) = run acts s in
      map stamp (sent ++ end.batch.queue)
      ≡ map stamp s.batch.queue ++ reported s.active_config.enabled acts
unfolding run reported
run-reported [] s = sym (append-nil (map stamp s.batch.queue))
run-reported ((now, a) ∷ rest) s =
    let (kept, on) = step-conserves s now a in
    let (s', sent) = step now a s in
    let (end, more) = run rest s' in
    sent_glue stamp sent more s'.batch.queue end.batch.queue _ _ _ kept
      (run-reported rest s' ∙ ap (λ b. map stamp s'.batch.queue ++ reported b rest) on)
