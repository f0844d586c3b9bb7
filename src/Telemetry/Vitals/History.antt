-- ===== src/Telemetry/Vitals/History.antt =====
-- The samples that are sent, against the history of what the browser measured.
use mathlib.Core.List.{map-append, append_assoc, append-nil}
use learn_pg.Prelude.{
  ℕ, ◌+◌, ◌-◌, ◌≡◌, refl, sym, ap, ap₂, ◌∙◌, Bool, true, false, Option, none, some, List, [], ◌∷◌,
  ◌++◌, map, String, get_or, if◌then◌else◌, arith, sum,
}
use learn_pg.Telemetry.Batch.{push, fire-Conserves, flush_now-Conserves, sent_glue}
use learn_pg.Telemetry.Vitals.{
  VitalName, lcp, fid, cls, inp, ttfb, VitalSample, Reporter, Navigation, PaintEntry, InputEntry,
  shift_of, rate, record_vital, on_navigation, input_entry, on_paint, on_first_input,
  on_layout_shift, Action, navigation, paint, first_input, layout_shift, configure, flushes, tick,
  step, run,
}

-- What tells samples apart here: the vital and its value.
abbrev pub key : VitalSample → VitalName × ℕ
key v = (v.name, v.value)

abbrev if_on : Bool → List (VitalName × ℕ) → List (VitalName × ℕ)
if_on on xs = if on then xs else []

-- The step from `s` to `t` queues the values `xs`, if collection is on, and changes no configuration.
abbrev Adds : Reporter → List (VitalName × ℕ) → Reporter → Type 0
Adds s xs t =
    (map key t.batch.queue ≡ map key s.batch.queue ++ if_on s.active_config.enabled xs)
    × (t.active_config ≡ s.active_config)
    × (t.cls_value ≡ s.cls_value)

if_on-append :
    (on : Bool) (xs ys : List (VitalName × ℕ)) → if_on on xs ++ if_on on ys ≡ if_on on (xs ++ ys)
if_on-append true xs ys = refl
if_on-append false xs ys = refl

if_on-nil : (on : Bool) → if_on on [] ≡ []
if_on-nil true = refl
if_on-nil false = refl

Adds-nil : (s : Reporter) → Adds s [] s
Adds-nil s = (
  sym (
      ap (λ l. map key s.batch.queue ++ l) (if_on-nil s.active_config.enabled)
      ∙ append-nil (map key s.batch.queue)),
  refl,
  refl,
)

Adds-trans :
    (s t u : Reporter) (xs ys : List (VitalName × ℕ))
    → Adds s xs t
    → Adds t ys u
    → Adds s (xs ++ ys) u
Adds-trans s t u xs ys p q = (
  q.0
      ∙ ap (λ l. l ++ if_on t.active_config.enabled ys) p.0
      ∙ ap (λ c. (map key s.batch.queue ++ if_on s.active_config.enabled xs) ++ if_on c.enabled ys)
          p.1
      ∙ append_assoc (map key s.batch.queue) _ _
      ∙ ap (λ l. map key s.batch.queue ++ l) (if_on-append s.active_config.enabled xs ys),
  q.1 ∙ p.1,
  q.2 ∙ p.2,
)

record_vital-Adds :
    (now : ℕ) (name : VitalName) (value : ℕ) (id : String) (nav : Option String) (s : Reporter)
    → Adds s ((name, value) ∷ []) (record_vital now name value id nav s)
unfolding record_vital push
record_vital-Adds now name value id nav s = ground (
  arith,
  append-nil (map key s.batch.queue),
  map-append key s.batch.queue (
      record {
        name = name;
        value = value;
        rating = rate name value;
        id = id;
        navigation_type = nav;
      }
      ∷ []),
)

abbrev pub of_navigation : Option Navigation → List (VitalName × ℕ)
of_navigation none = []
of_navigation (some nav) = (ttfb, nav.response_start - nav.request_start) ∷ []

abbrev pub of_paint : List PaintEntry → List (VitalName × ℕ)
of_paint [] = []
of_paint (e ∷ []) = (lcp, e.start_time) ∷ []
of_paint (e ∷ f ∷ es) = of_paint (f ∷ es)

abbrev pub of_input : InputEntry → Option ℕ → List (VitalName × ℕ)
of_input e none = []
of_input e (some p) = (fid, p - e.start_time) ∷ (inp, e.duration) ∷ []

abbrev pub of_inputs : List InputEntry → List (VitalName × ℕ)
of_inputs [] = []
of_inputs (e ∷ es) = of_input e e.processing_start ++ of_inputs es

on_navigation-Adds :
    (now : ℕ) (o : Option Navigation) (s : Reporter)
    → Adds s (of_navigation o) (on_navigation now o s)
unfolding on_navigation
on_navigation-Adds now none s = Adds-nil s
on_navigation-Adds now (some nav) s =
    record_vital-Adds now ttfb (nav.response_start - nav.request_start) nav.name (some nav.type) s

on_paint-Adds :
    (now : ℕ) (es : List PaintEntry) (s : Reporter) → Adds s (of_paint es) (on_paint now es s)
unfolding on_paint
on_paint-Adds now [] s = Adds-nil s
on_paint-Adds now (e ∷ []) s = record_vital-Adds now lcp e.start_time (get_or e.id "") none s
on_paint-Adds now (e ∷ f ∷ es) s = on_paint-Adds now (f ∷ es) s

input_entry-Adds :
    (now : ℕ) (e : InputEntry) (o : Option ℕ) (s : Reporter)
    → Adds s (of_input e o) (input_entry now e o s)
input_entry-Adds now e none s = Adds-nil s
input_entry-Adds now e (some p) s =
    let t : Reporter = record_vital now fid (p - e.start_time) e.entry_type none s in
    let u : Reporter = record_vital now inp e.duration e.entry_type none t in
    Adds-trans s t u _ _ (record_vital-Adds now fid (p - e.start_time) e.entry_type none s)
      (record_vital-Adds now inp e.duration e.entry_type none t)

on_first_input-Adds :
    (now : ℕ) (es : List InputEntry) (s : Reporter)
    → Adds s (of_inputs es) (on_first_input now es s)
unfolding on_first_input
on_first_input-Adds now [] s = Adds-nil s
on_first_input-Adds now (e ∷ es) s =
    let t : Reporter = input_entry now e e.processing_start s in
    Adds-trans s t (on_first_input now es t) _ _ (input_entry-Adds now e e.processing_start s)
      (on_first_input-Adds now es t)

abbrev enabled_after : Action → Bool → Bool
enabled_after (configure o) on = get_or o.enabled true
enabled_after _ on = on

abbrev cls_after : Action → ℕ → ℕ
cls_after (layout_shift es) total = total + sum shift_of es
cls_after _ total = total

abbrev measured_by : Action → ℕ → List (VitalName × ℕ)
measured_by (navigation nav) total = of_navigation nav
measured_by (paint es) total = of_paint es
measured_by (first_input es) total = of_inputs es
measured_by (layout_shift es) total = (cls, total + sum shift_of es) ∷ []
measured_by _ total = []

-- What a history measures while collection is on; each CLS value is the sum of all shifts so far.
unfoldable pub measured : Bool → ℕ → List (ℕ × Action) → List (VitalName × ℕ)
measured on total [] = []
measured on total ((now, a) ∷ rest) =
    if_on on (measured_by a total) ++ measured (enabled_after a on) (cls_after a total) rest

abbrev StepConserves : Reporter → Action → Reporter × List VitalSample → Type 0
StepConserves s a r =
    (map key (r.1 ++ r.0.batch.queue)
      ≡ map key s.batch.queue ++ if_on s.active_config.enabled (measured_by a s.cls_value))
    × (r.0.active_config.enabled ≡ enabled_after a s.active_config.enabled)
    × (r.0.cls_value ≡ cls_after a s.cls_value)

of_Adds :
    (s t : Reporter) (a : Action)
    → Adds s (measured_by a s.cls_value) t
    → enabled_after a s.active_config.enabled ≡ s.active_config.enabled
    → cls_after a s.cls_value ≡ s.cls_value
    → StepConserves s a (t, [])
of_Adds s t a p e c = (p.0, ap (λ k. k.enabled) p.1 ∙ sym e, p.2 ∙ sym c)

step-conserves : (s : Reporter) (now : ℕ) (a : Action) → StepConserves s a (step now a s)
unfolding step on_layout_shift
step-conserves s now (navigation nav) =
    of_Adds s (on_navigation now nav s) (navigation nav) (on_navigation-Adds now nav s) refl refl
step-conserves s now (paint es) =
    of_Adds s (on_paint now es s) (paint es) (on_paint-Adds now es s) refl refl
step-conserves s now (first_input es) =
    of_Adds s (on_first_input now es s) (first_input es) (on_first_input-Adds now es s) refl refl
step-conserves s now (layout_shift es) =
    let total : ℕ = s.cls_value + sum shift_of es in
    let p = record_vital-Adds now cls total "" none (record s { cls_value = total }) in
    (p.0, ap (λ k. k.enabled) p.1, p.2)
step-conserves s now (configure o) = ((Adds-nil s).0, refl, refl)
step-conserves s now flushes =
    (ap (map key) (flush_now-Conserves s.batch) ∙ (Adds-nil s).0, refl, refl)
step-conserves s now tick = (ap (map key) (fire-Conserves now s.batch) ∙ (Adds-nil s).0, refl, refl)

-- Over any run, the samples that were sent and then those still queued are those that were queued at
-- first and then those measured while collection was on, with the cumulative layout shift: none is
-- lost, made up, sent twice, or sent out of order.
pub run-measured :
    (acts : List (ℕ × Action)) (s : Reporter)
    → let (end, sent) = run acts s in
      map key (sent ++ end.batch.queue)
      ≡ map key s.batch.queue ++ measured s.active_config.enabled s.cls_value acts
unfolding run measured
run-measured [] s = sym (append-nil (map key s.batch.queue))
run-measured ((now, a) ∷ rest) s =
    let kept = step-conserves s now a in
    let (s', sent) = step now a s in
    let (end, more) = run rest s' in
    sent_glue key sent more s'.batch.queue end.batch.queue _ _ _ kept.0 (
      run-measured rest s' ∙ ap₂ (λ b c. map key s'.batch.queue ++ measured b c rest) kept.1 kept.2)
