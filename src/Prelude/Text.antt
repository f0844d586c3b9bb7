-- ===== src/Prelude/Text.antt =====
-- Text: concatenation, and numbers in template literals.
use Prim.Native.Nat.{ℕ, zero, suc, ◌/◌, ◌%◌}
use Prim.Native.Nat.{◌≤◌}
use Prim.Native.Char.{code}
use mathlib.Core.Logic.{inl, inr}
use native.Mathlib.Omega.{arith}
use Prim.Native.String.{String}
use learn_pg.Prelude.Tests.{ltb, if◌then◌else◌, Bool-cases}

abbrev pub NonEmpty : String → Type 0
NonEmpty String.[] = ⊥
NonEmpty (String.◌∷◌ c s) = Unit {0}

infixr 66 ◌++ₛ◌
abbrev pub ◌++ₛ◌ : String → String → String
String.[] ++ₛ t = t
(String.◌∷◌ c s) ++ₛ t = String.◌∷◌ c (s ++ₛ t)

abbrev digit : ℕ → String
digit zero = "0"
digit (suc zero) = "1"
digit (suc (suc zero)) = "2"
digit (suc (suc (suc zero))) = "3"
digit (suc (suc (suc (suc zero)))) = "4"
digit (suc (suc (suc (suc (suc zero))))) = "5"
digit (suc (suc (suc (suc (suc (suc zero)))))) = "6"
digit (suc (suc (suc (suc (suc (suc (suc zero))))))) = "7"
digit (suc (suc (suc (suc (suc (suc (suc (suc zero)))))))) = "8"
digit _ = "9"

-- The decimal digits of `n` before `acc`; `fuel` bounds the number of digits.
show_digits : ℕ → ℕ → String → String
show_digits zero n acc = acc
show_digits (suc fuel) n acc =
    let more = show_digits fuel (n / 10) (digit (n % 10) ++ₛ acc) in
    if ltb n 10 then digit n ++ₛ acc else more

-- `${n}`
unfoldable pub show : ℕ → String
unfolding show_digits
show n = show_digits (suc n) n ""

-- A text that begins with a decimal digit.
abbrev pub IsDigitText : String → Type 0
IsDigitText String.[] = ⊥
IsDigitText (String.◌∷◌ c s) = (b'0' ≤ code c) × (code c ≤ b'9')

digit-IsDigitText : (d : ℕ) (s : String) → IsDigitText (digit d ++ₛ s)
digit-IsDigitText zero s = omega arith
digit-IsDigitText (suc zero) s = omega arith
digit-IsDigitText (suc (suc zero)) s = omega arith
digit-IsDigitText (suc (suc (suc zero))) s = omega arith
digit-IsDigitText (suc (suc (suc (suc zero)))) s = omega arith
digit-IsDigitText (suc (suc (suc (suc (suc zero))))) s = omega arith
digit-IsDigitText (suc (suc (suc (suc (suc (suc zero)))))) s = omega arith
digit-IsDigitText (suc (suc (suc (suc (suc (suc (suc zero))))))) s = omega arith
digit-IsDigitText (suc (suc (suc (suc (suc (suc (suc (suc zero)))))))) s = omega arith
digit-IsDigitText _ s = omega arith

show_digits-IsDigitText :
    (fuel n : ℕ) (acc : String) → IsDigitText acc → IsDigitText (show_digits fuel n acc)
unfolding show_digits
show_digits-IsDigitText zero n acc h = h
show_digits-IsDigitText (suc fuel) n acc h = elim (Bool-cases (ltb n 10)) [
  | inl small ↦ rw small (digit-IsDigitText n acc)
  | inr large ↦ rw large (show_digits-IsDigitText fuel (n / 10) _ (digit-IsDigitText (n % 10) acc))
]

-- The digits of a number are never empty and begin with a digit.
pub show-IsDigitText : (n : ℕ) → IsDigitText (show n)
unfolding show
show-IsDigitText n = elim (Bool-cases (ltb n 10)) [
  | inl small ↦ rw (small, show_digits) (digit-IsDigitText n "")
  | inr large ↦
      rw (large, show_digits) (show_digits-IsDigitText n (n / 10) _ (digit-IsDigitText (n % 10) ""))
]
