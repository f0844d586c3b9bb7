-- ===== src/Prelude/Number.antt =====
-- The numbers that the program computes with: natural numbers below 2^53, and NaN.
-- Texts that denote negative or fractional numbers, or numbers in another notation, are left out:
-- `parse_number` gives NaN for them.
use Prim.Native.Nat.{ℕ, ◌+◌, ◌-◌, ◌*◌}
use Prim.Native.Char.{code}
use Prim.Native.String.{String}
use mathlib.Core.Path.{◌≡◌}
use mathlib.Core.Logic.{◌↔◌}
use mathlib.Core.Bool.{Bool, true, false, ◌&&◌, ◌||◌}
use mathlib.Core.List.{List, [], ◌∷◌, reverse}
use native.Mathlib.Omega.{arith}
use learn_pg.Prelude.Tests.{leb, ltb, nat_beq, nat_beq_iff, if◌then◌else◌}
use learn_pg.Prelude.Classes.{Equality}

pub data Number : Type 0 where
  num : ℕ → Number
  nan : Number

-- The equality of `Map` keys, which takes NaN as equal to itself.
abbrev pub same_value : Number → Number → Bool
same_value (num a) (num b) = nat_beq a b
same_value nan nan = true
same_value _ _ = false

pub same_value_iff : (a b : Number) → (same_value a b ≡ true) ↔ (a ≡ b)
same_value_iff (num a) (num b) = ground (arith, nat_beq_iff a b)
same_value_iff (num a) nan = ground arith
same_value_iff nan (num b) = ground arith
same_value_iff nan nan = ground arith

instance abbrev pub number_eq : Equality Number
number_eq = record { same = same_value; same_iff = same_value_iff }

-- `a > b`, which NaN never satisfies; as a comparator `a - b > 0`.
abbrev pub gt : Number → Number → Bool
gt (num a) (num b) = ltb b a
gt _ _ = false

-- Both 0 and NaN are falsy: `n || d`.
abbrev pub or_number : Number → Number → Number
or_number (num a) d = if nat_beq a 0 then d else num a
or_number nan d = d

abbrev pub truthy : Number → Bool
truthy (num a) = if nat_beq a 0 then false else true
truthy nan = false

abbrev pub codes : String → List ℕ
codes String.[] = []
codes (String.◌∷◌ c s) = code c ∷ codes s

abbrev pub is_space : ℕ → Bool
is_space c = nat_beq c 32 || leb 9 c && leb c 13 || nat_beq c 160 || nat_beq c 65279

drop_spaces : List ℕ → List ℕ
drop_spaces [] = []
drop_spaces (c ∷ cs) = let rest = drop_spaces cs in if is_space c then rest else c ∷ cs

unfoldable pub trim : List ℕ → List ℕ
unfolding drop_spaces
trim cs = reverse (drop_spaces (reverse (drop_spaces cs)))

decimal : ℕ → List ℕ → Number
decimal acc [] = num acc
decimal acc (c ∷ cs) =
    let rest = decimal (acc * 10 + (c - b'0')) cs in if leb b'0' c && leb c b'9' then rest else nan

-- `Number(s)`; the text of spaces alone is 0.
unfoldable pub parse_number : String → Number
unfolding trim decimal
parse_number s = decimal 0 (trim (codes s))
