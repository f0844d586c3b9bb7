-- ===== src/Telemetry/Handlers/Single.antt =====
-- How many installations are in place.
use learn_pg.Prelude.{
  ℕ, ◌+◌, ◌≡◌, refl, sym, subst, ◌⊎◌, inl, inr, true, false, Option, none, some, List, [], ◌∷◌,
  ◌++◌, String, any, if◌then◌else◌, ◌==◌, nat_eq, arith,
}
use learn_pg.Telemetry.Errors.{Reporter}
use learn_pg.Telemetry.Handlers.{
  Handlers, unset, install, clean_up, Call, installs, cleans_up, call, run, Failure, listen,
  dispatch_failure,
}

-- A cleanup is called while its own installation is in place, or does nothing.
abbrev pub IsTimely : Call → Handlers → Type 0
IsTimely installs s = Unit {0}
IsTimely (cleans_up none) s = Unit {0}
IsTimely (cleans_up (some id)) s = any (λ i. i == id) s.live ≡ true

-- Every cleanup of the run is.
abbrev pub AllTimely : List Call → Handlers → Type 0
AllTimely [] s = Unit {0}
AllTimely (c ∷ cs) s = IsTimely c s × AllTimely cs (call c s)

-- Nothing is installed, or one installation is in place.
abbrev IsSingle : Handlers → Type 0
IsSingle s =
    ((s.installed_listeners ≡ false) × (s.live ≡ []))
    ⊎ ((k : ℕ) × (s.installed_listeners ≡ true) × (s.live ≡ k ∷ []))

install-IsSingle : (s : Handlers) → IsSingle s → IsSingle (install s)
unfolding install
install-IsSingle s (inl (off, empty)) = rw off (inr (s.made, refl, rw empty refl))
install-IsSingle s (inr (k, on, one)) =
    subst
      (λ b. IsSingle (
        if b then s else record {
          installed_listeners = true;
          live = s.live ++ s.made ∷ [];
          made = s.made + 1;
        }))
      (sym on) (inr (k, on, one))

clean_up-IsSingle :
    (id : ℕ) (s : Handlers)
    → any (λ i. i == id) s.live ≡ true
    → IsSingle s
    → IsSingle (clean_up (some id) s)
unfolding clean_up
clean_up-IsSingle id s t (inl (off, empty)) = inl (refl, rw empty refl)
clean_up-IsSingle id s t (inr (k, on, one)) =
    let same : (k == id) ≡ true = ground (arith, one, t) in inl (refl, rw (one, same) refl)

call-IsSingle : (c : Call) (s : Handlers) → IsTimely c s → IsSingle s → IsSingle (call c s)
unfolding clean_up
call-IsSingle installs s t h = install-IsSingle s h
call-IsSingle (cleans_up none) s t h = h
call-IsSingle (cleans_up (some id)) s t h = clean_up-IsSingle id s t h

run-IsSingle : (cs : List Call) (s : Handlers) → AllTimely cs s → IsSingle s → IsSingle (run cs s)
unfolding run
run-IsSingle [] s t h = h
run-IsSingle (c ∷ cs) s t h = run-IsSingle cs (call c s) t.1 (call-IsSingle c s t.0 h)

dispatch_failure-once :
    (now : ℕ) (href : Option String) (e : Failure) (h : Handlers) (s : Reporter)
    → IsSingle h
    → dispatch_failure now href e h s ≡ (if h.installed_listeners then listen now href e s else s)
unfolding dispatch_failure
dispatch_failure-once now href e h s (inl (off, empty)) = rw (off, empty) refl
dispatch_failure-once now href e h s (inr (k, on, one)) = rw (on, one) refl

-- However often the handlers are installed, and removed by cleanups that are called while their own
-- installation is in place, a failure is reported once while they are installed and else not at all.
pub run-reports_once :
    (cs : List Call) (now : ℕ) (href : Option String) (e : Failure) (s : Reporter)
    → AllTimely cs unset
    → dispatch_failure now href e (run cs unset) s
      ≡ (if (run cs unset).installed_listeners then listen now href e s else s)
run-reports_once cs now href e s t =
    dispatch_failure-once now href e (run cs unset) s (run-IsSingle cs unset t (inl (refl, refl)))
