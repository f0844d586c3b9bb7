-- ===== src/Prelude/Sort.antt =====
-- `xs.sort((a, b) => key(a) - key(b))`: a stable sort by a numeric key. Where a key is NaN the order
-- is up to the JavaScript engine; this is one such order.
use Prim.Native.Nat.{ℕ, ◌+◌}
use mathlib.Core.Path.{◌≡◌, refl, ◌∙◌, ap}
use mathlib.Core.Bool.{Bool, true, false}
use mathlib.Core.List.{List, [], ◌∷◌}
use native.Mathlib.Omega.{arith}
use learn_pg.Prelude.Tests.{if◌then◌else◌, Bool-cases}
use learn_pg.Prelude.Lists.{All, sum}
use learn_pg.Prelude.Classes.{◌==◌}
use learn_pg.Prelude.Number.{Number, num, nan, gt, number_eq}
use mathlib.Core.Logic.{inl, inr}

abbrev pub is_num : Number → Bool
is_num (num n) = true
is_num nan = false

gt_trans : (a b c : Number) → gt a b ≡ true → gt b c ≡ true → gt a c ≡ true
gt_trans (num a) (num b) (num c) p q = ground arith
gt_trans nan b c p q = absurd (cc)
gt_trans (num a) nan c p q = absurd (cc)
gt_trans (num a) (num b) nan p q = absurd (cc)

gt-other :
    (a b : Number)
    → is_num a ≡ true
    → is_num b ≡ true
    → (a == b) ≡ false
    → gt a b ≡ false
    → gt b a ≡ true
gt-other (num a) (num b) p q d g = ground arith
gt-other nan b p q d g = absurd (cc)
gt-other (num a) nan p q d g = absurd (cc)

module _ {ℓ} {A : Type ℓ} (key : A → Number) where
  insert : A → List A → List A
  insert x [] = x ∷ []
  insert x (y ∷ ys) = if gt (key x) (key y) then y ∷ insert x ys else x ∷ y ∷ ys

  unfoldable pub sort_by : List A → List A
  unfolding insert
  sort_by [] = []
  sort_by (x ∷ xs) = insert x (sort_by xs)

  -- Keys rise from each element to all that follow it.
  abbrev pub Rising : List A → Type 0
  Rising [] = Unit {0}
  Rising (x ∷ xs) = All (λ y. gt (key y) (key x) ≡ true) xs × Rising xs

  abbrev pub Numeric : List A → Type 0
  Numeric = All (λ x. is_num (key x) ≡ true)

  abbrev pub Different : List A → Type 0
  Different [] = Unit {0}
  Different (x ∷ xs) = All (λ y. (key x == key y) ≡ false) xs × Different xs

  All-insert {κ} : (P : A → Type κ) (x : A) (ys : List A) → P x → All P ys → All P (insert x ys)
  unfolding insert
  All-insert P x [] p h = (p, tt)
  All-insert P x (y ∷ ys) p h = ground (arith, h, p, All-insert P x ys p h.1)

  pub All-sort_by {κ} : (P : A → Type κ) (xs : List A) → All P xs → All P (sort_by xs)
  unfolding sort_by
  All-sort_by P [] h = tt
  All-sort_by P (x ∷ xs) h = All-insert P x (sort_by xs) h.0 (All-sort_by P xs h.1)

  All-above :
      (x y : A) (ys : List A)
      → gt (key y) (key x) ≡ true
      → All (λ z. gt (key z) (key y) ≡ true) ys
      → All (λ z. gt (key z) (key x) ≡ true) ys
  All-above x y [] g h = tt
  All-above x y (z ∷ ys) g h = (gt_trans (key z) (key y) (key x) h.0 g, All-above x y ys g h.1)

  Rising-insert :
      (x : A) (ys : List A)
      → is_num (key x) ≡ true
      → Numeric ys
      → All (λ y. (key x == key y) ≡ false) ys
      → Rising ys
      → Rising (insert x ys)
  unfolding insert
  Rising-insert x [] n ns d r = (tt, tt)
  Rising-insert x (y ∷ ys) n ns d r = elim (Bool-cases (gt (key x) (key y))) [
    | inl up ↦
        rw up (
          All-insert (λ z. gt (key z) (key y) ≡ true) x ys up r.0,
          Rising-insert x ys n ns.1 d.1 r.1,
        )
    | inr down ↦
        let over : gt (key y) (key x) ≡ true = gt-other (key x) (key y) n ns.0 d.0 down in
        rw down ((over, All-above x y ys over r.0), r)
  ]

  -- Sorting elements with different keys, all numbers, makes the keys rise.
  pub Rising-sort_by : (xs : List A) → Numeric xs → Different xs → Rising (sort_by xs)
  unfolding sort_by
  Rising-sort_by [] n d = tt
  Rising-sort_by (x ∷ xs) n d =
      Rising-insert x (sort_by xs) n.0 (All-sort_by _ xs n.1) (All-sort_by _ xs d.0)
        (Rising-sort_by xs n.1 d.1)

  sum-insert : (f : A → ℕ) (x : A) (ys : List A) → sum f (insert x ys) ≡ f x + sum f ys
  unfolding insert
  sum-insert f x [] = refl
  sum-insert f x (y ∷ ys) = ground (arith, sum-insert f x ys)

  pub sum-sort_by : (f : A → ℕ) (xs : List A) → sum f (sort_by xs) ≡ sum f xs
  unfolding sort_by
  sum-sort_by f [] = refl
  sum-sort_by f (x ∷ xs) = sum-insert f x (sort_by xs) ∙ ap (λ n. f x + n) (sum-sort_by f xs)
