-- ===== src/Prelude/Classes.antt =====
-- Equality tests: `===` on the types of the program that have it.
use Prim.Native.Nat.{ℕ}
use Prim.Native.String.{String}
use mathlib.Core.Path.{◌≡◌, refl}
use mathlib.Core.Logic.{◌↔◌, ◌≢◌}
use mathlib.Core.Bool.{Bool, true, false}
use text.Mathlib.Text.{◌==◌ as text_eq}
use text.Mathlib.TextEquality.{eq_iff as text_eq_iff}
use native.Mathlib.Omega.{arith}
use learn_pg.Prelude.Tests.{nat_beq, nat_beq_iff}

-- A type whose values can be compared, with a test that decides equality.
pub record Equality {ℓ} (A : Type ℓ) : Type ℓ where
  pub same : A → A → Bool
  pub same_iff : (x y : A) → (same x y ≡ true) ↔ (x ≡ y)

module _ {ℓ} {A : Type ℓ} ⦃e : Equality A⦄ where
  infix 50 ◌==◌
  abbrev pub ◌==◌ : A → A → Bool
  x == y = e.same x y

  pub eq→beq : (a b : A) → a ≡ b → (a == b) ≡ true
  eq→beq a b h = (e.same_iff a b).1 h

  pub beq→eq : (a b : A) → (a == b) ≡ true → a ≡ b
  beq→eq a b h = (e.same_iff a b).0 h

  pub beq_refl : (a : A) → (a == a) ≡ true
  beq_refl a = (e.same_iff a a).1 refl

  pub beq-ne : (a b : A) → a ≢ b → (a == b) ≡ false
  beq-ne a b h = ground (arith, e.same_iff a b)

  pub beq_ne→ne : (a b : A) → (a == b) ≡ false → a ≢ b
  beq_ne→ne a b h p = ground (arith, e.same_iff a b)

instance abbrev pub string_eq : Equality String
string_eq = record { same = text_eq; same_iff = text_eq_iff }

instance abbrev pub nat_eq : Equality ℕ
nat_eq = record { same = nat_beq; same_iff = nat_beq_iff }
