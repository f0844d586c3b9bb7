-- ===== src/Socket/Timers.antt =====
-- A ref that holds a timer, as in frontend/src/hooks/useWebSocket.ts: the ref knows the timer that was
-- set last, and other timers that it knew may still run.
use learn_pg.Prelude.{
  ℕ, ◌≡◌, refl, sym, ap, subst, ◌∙◌, Bool, true, false, not, Option, none, some, List, [], ◌∷◌,
  filter, any, ◌==◌, nat_eq, beq_refl, arith, if◌then◌else◌,
}

pub record Timer : Type 0 where
  pub live : List ℕ
  pub ref : Option ℕ

abbrev pub no_timer : Timer
no_timer = record { live = []; ref = none }

-- A timer that was cancelled, or a timeout that has fired, runs no more.
abbrev pub without : ℕ → List ℕ → List ℕ
without id = filter (λ i. not (i == id))

abbrev cancelled : Option ℕ → List ℕ → List ℕ
cancelled none live = live
cancelled (some id) live = without id live

-- `if (ref.current) { clearTimeout(ref.current); ref.current = null }`
abbrev pub clear : Timer → Timer
clear t = record { live = cancelled t.ref t.live; ref = none }

-- `ref.current = setTimeout(...)`
abbrev pub arm : ℕ → Timer → Timer
arm id t = record { live = id ∷ t.live; ref = some id }

abbrev pub is_live : ℕ → Timer → Bool
is_live id t = any (λ i. i == id) t.live

abbrev pub fired : ℕ → Timer → Timer
fired id t = record t { live = without id t.live }

pub live-clear : (t : Timer) → t.live ≡ [] → (clear t).live ≡ []
live-clear t h = of_ref t.ref t.live h
  where
    of_ref : (o : Option ℕ) (live : List ℕ) → live ≡ [] → cancelled o live ≡ []
    of_ref none live h = h
    of_ref (some id) live h = ap (without id) h

-- A timeout that has fired leaves none, if it was the only one.
pub live-fired :
    (id only : ℕ) (t : Timer) → t.live ≡ only ∷ [] → is_live id t ≡ true → (fired id t).live ≡ []
live-fired id only t h due =
    let hit : (only == id) ≡ true =
      ground (arith, subst (λ l. any (λ i. i == id) l ≡ true) h due) in
    ap (without id) h ∙ subst (λ b. (if not b then only ∷ [] else []) ≡ []) (sym hit) refl

pub is_live-nil : (id : ℕ) (t : Timer) → t.live ≡ [] → is_live id t ≡ false
is_live-nil id t h = ap (any (λ i. i == id)) h

pub live-clear_only :
    (only : ℕ) (t : Timer) → t.live ≡ only ∷ [] → t.ref ≡ some only → (clear t).live ≡ []
live-clear_only only t h r =
    ap (λ o. cancelled o t.live) r
    ∙ ap (without only) h
    ∙ subst (λ b. (if not b then only ∷ [] else []) ≡ []) (sym (beq_refl only)) refl
