-- ===== src/Backoff.antt =====
-- `backoff` in frontend/src/lib/api.ts and `backoffDelay` in frontend/src/hooks/useWebSocket.ts, which
-- have the same body.
use native.Mathlib.Nat.{pow-suc, div-lt_iff_lt-mul}
use learn_pg.Prelude.{ℕ, ◌*◌, ◌/◌, ◌^◌, ◌≤◌, ◌<◌, min, arith, zero, suc}

-- A result of `Math.random()`: a fraction below 1.
pub record Random : Type 0 where
  pub numerator : ℕ
  pub denominator : ℕ
  pub below_one : numerator < denominator

-- `Math.floor(Math.random() * exp)`
unfoldable pub floor_random : Random → ℕ → ℕ
floor_random r exp = r.numerator * exp / r.denominator

unfoldable pub ceiling : ℕ → ℕ → ℕ → ℕ
ceiling attempt base cap = min cap (base * 2 ^ attempt)

unfoldable pub backoff : Random → ℕ → ℕ → ℕ → ℕ
backoff r attempt base cap = floor_random r (ceiling attempt base cap)

unfoldable pub backoff_delay : Random → ℕ → ℕ → ℕ → ℕ
backoff_delay r attempt base cap = floor_random r (ceiling attempt base cap)

pow_pos : (n : ℕ) → 0 < 2 ^ n
pow_pos zero = omega arith
pow_pos (suc n) = rw pow-suc (omega (arith, pow_pos n))

pub floor_random-lt : (r : Random) (exp : ℕ) → 0 < exp → floor_random r exp < exp
unfolding floor_random
floor_random-lt r exp h =
    let d : 0 < r.denominator = omega (arith, r.below_one) in
    (div-lt_iff_lt-mul d).1 (grind (arith, r.below_one))

floor_random-le : (r : Random) (exp : ℕ) → floor_random r exp ≤ exp
unfolding floor_random
floor_random-le r zero = omega arith
floor_random-le r (suc e) =
    let low : floor_random r (suc e) < suc e = floor_random-lt r (suc e) (omega arith) in
    omega arith

-- With a positive base and cap, a delay stays below the cap and below the base doubled `attempt` times.
pub backoff_bounds :
    (r : Random) (attempt base cap : ℕ)
    → 0 < base
    → 0 < cap
    → (backoff r attempt base cap < cap) × (backoff r attempt base cap < base * 2 ^ attempt)
unfolding backoff ceiling
backoff_bounds r attempt base cap b c =
    let grown : 0 < base * 2 ^ attempt = grind (arith, pow_pos attempt) in
    let top : ℕ = min cap (base * 2 ^ attempt) in
    let low : floor_random r top < top = floor_random-lt r top (omega arith) in
    (omega (arith, low), omega (arith, low))

-- Whatever the base and the cap, a delay never exceeds the cap.
pub backoff-le : (r : Random) (attempt base cap : ℕ) → backoff r attempt base cap ≤ cap
unfolding backoff ceiling
backoff-le r attempt base cap =
    let top : ℕ = min cap (base * 2 ^ attempt) in omega (arith, floor_random-le r top)
