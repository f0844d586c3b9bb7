-- ===== src/Telemetry/Errors/Crumbs.antt =====
-- The breadcrumbs of the error reporter against their whole history.
use learn_pg.Prelude.{
  ℕ, ◌-◌, ◌≡◌, refl, sym, ap, ap₂, subst, ◌∙◌, inl, inr, true, List, [], ◌∷◌, ◌++◌, length, ltb,
  last_n, last_n-push, arith, Bool-cases, if◌then◌else◌, drop-nil,
}
use learn_pg.Breadcrumbs.{Crumb}
use learn_pg.Telemetry.Errors.{
  Breadcrumb, Reporter, Action, add, report, configure, flushes, tick, trim_to, add_breadcrumb,
  step, run,
}

-- A history that leaves the configuration alone.
abbrev pub NoConfigure : List (ℕ × Action) → Type 0
NoConfigure [] = Unit {0}
NoConfigure ((now, configure o) ∷ rest) = ⊥
NoConfigure ((now, _) ∷ rest) = NoConfigure rest

-- Every breadcrumb of a history, after those of `h`, with no bound.
unfoldable pub crumbs : List (ℕ × Action) → List Breadcrumb → List Breadcrumb
crumbs [] h = h
crumbs ((now, add c) ∷ rest) h = crumbs rest (h ++ record { crumb = c; timestamp = now } ∷ [])
crumbs ((now, _) ∷ rest) h = crumbs rest h

trim_to-last_n : (max : ℕ) (bs : List Breadcrumb) → trim_to max bs ≡ last_n max bs
trim_to-last_n max bs = elim (Bool-cases (ltb max (length bs))) [
  | inl over ↦ rw over refl
  | inr within ↦
      let none_over : length bs - max ≡ 0 = ground (arith, within) in rw (within, none_over) refl
]

-- The reporter is on, keeps `max` breadcrumbs, and they are the latest of `h`.
abbrev Shows : Reporter → ℕ → List Breadcrumb → Type 0
Shows s max h =
    (s.active_config.enabled ≡ true)
    × (s.active_config.max_breadcrumbs ≡ max)
    × (s.breadcrumbs ≡ last_n max h)

breadcrumbs-add :
    (s : Reporter) (now : ℕ) (c : Crumb)
    → s.active_config.enabled ≡ true
    → (add_breadcrumb now c s).breadcrumbs
      ≡ trim_to s.active_config.max_breadcrumbs
          (s.breadcrumbs ++ record { crumb = c; timestamp = now } ∷ [])
unfolding add_breadcrumb
breadcrumbs-add s now c e =
    subst (λ b. (if b then on else s).breadcrumbs ≡ on.breadcrumbs) (sym e) refl
  where
    on : Reporter
    on = record s {
      breadcrumbs =
          trim_to s.active_config.max_breadcrumbs
            (s.breadcrumbs ++ record { crumb = c; timestamp = now } ∷ []);
    }

config-add :
    (s : Reporter) (now : ℕ) (c : Crumb) → (add_breadcrumb now c s).active_config ≡ s.active_config
unfolding add_breadcrumb
config-add s now c = ground arith

add-Shows :
    (s : Reporter) (max now : ℕ) (h : List Breadcrumb) (c : Crumb)
    → Shows s max h
    → Shows (add_breadcrumb now c s) max (h ++ record { crumb = c; timestamp = now } ∷ [])
add-Shows s max now h c p =
    let x : Breadcrumb = record { crumb = c; timestamp = now } in
    (
      ap (λ k. k.enabled) (config-add s now c) ∙ p.0,
      ap (λ k. k.max_breadcrumbs) (config-add s now c) ∙ p.1,
      breadcrumbs-add s now c p.0
          ∙ ap₂ (λ m l. trim_to m (l ++ x ∷ [])) p.1 p.2
          ∙ trim_to-last_n max (last_n max h ++ x ∷ [])
          ∙ last_n-push max h x,
    )

step-Shows :
    (s : Reporter) (max now : ℕ) (h : List Breadcrumb) (a : Action)
    → NoConfigure ((now, a) ∷ [])
    → Shows s max h
    → Shows (step now a s).0 max (crumbs ((now, a) ∷ []) h)
unfolding step crumbs
step-Shows s max now h (add c) n p = add-Shows s max now h c p
step-Shows s max now h (report href e source context) n p = ground (arith, p)
step-Shows s max now h (configure o) n p = absurd n
step-Shows s max now h flushes n p = p
step-Shows s max now h tick n p = p

run-Shows :
    (acts : List (ℕ × Action)) (s : Reporter) (max : ℕ) (h : List Breadcrumb)
    → NoConfigure acts
    → Shows s max h
    → Shows (run acts s).0 max (crumbs acts h)
unfolding run crumbs
run-Shows [] s max h n p = p
run-Shows ((now, add c) ∷ rest) s max h n p =
    run-Shows rest (step now (add c) s).0 max _ n (step-Shows s max now h (add c) tt p)
run-Shows ((now, report r e o x) ∷ rest) s max h n p =
    run-Shows rest (step now (report r e o x) s).0 max h n
      (step-Shows s max now h (report r e o x) tt p)
run-Shows ((now, configure o) ∷ rest) s max h n p = absurd n
run-Shows ((now, flushes) ∷ rest) s max h n p =
    run-Shows rest (step now flushes s).0 max h n (step-Shows s max now h flushes tt p)
run-Shows ((now, tick) ∷ rest) s max h n p =
    run-Shows rest (step now tick s).0 max h n (step-Shows s max now h tick tt p)

-- From a reporter that is enabled and has no breadcrumbs, any history that leaves the configuration
-- alone keeps just the latest `max_breadcrumbs` breadcrumbs of that history, in order.
pub run-breadcrumbs :
    (acts : List (ℕ × Action)) (s : Reporter)
    → NoConfigure acts
    → s.active_config.enabled ≡ true
    → s.breadcrumbs ≡ []
    → (run acts s).0.breadcrumbs ≡ last_n s.active_config.max_breadcrumbs (crumbs acts [])
run-breadcrumbs acts s n on new =
    (run-Shows acts s s.active_config.max_breadcrumbs [] n (on, refl, new ∙ sym (drop-nil _))).2
