-- ===== src/Prelude/Lists.antt =====
-- Lists measured by native numbers, under the library's names, and the array methods of JavaScript.
use Prim.Native.Nat.{ℕ, zero, suc, ◌+◌, ◌-◌, ◌≤◌, min}
use mathlib.Core.Path.{◌≡◌, refl, ap, sym, ◌∙◌, subst}
use mathlib.Core.Bool.{Bool, false, ◌||◌}
use mathlib.Core.List.{List, [], ◌∷◌, ◌++◌, map}
use mathlib.Core.Logic.{inl, inr}
use mathlib.Core.Option.{Option, none, some}
use native.Mathlib.Omega.{arith}
use learn_pg.Prelude.Tests.{if◌then◌else◌, Bool-cases}

module _ {ℓ} {A : Type ℓ} where
  abbrev pub length : List A → ℕ
  length [] = 0
  length (x ∷ xs) = suc (length xs)

  abbrev pub take : ℕ → List A → List A
  take zero xs = []
  take (suc n) [] = []
  take (suc n) (x ∷ xs) = x ∷ take n xs

  abbrev pub drop : ℕ → List A → List A
  drop zero xs = xs
  drop (suc n) [] = []
  drop (suc n) (x ∷ xs) = drop n xs

  abbrev pub head? : List A → Option A
  head? [] = none
  head? (x ∷ xs) = some x

  -- `xs.filter(p)`
  abbrev pub filter : (A → Bool) → List A → List A
  filter p [] = []
  filter p (x ∷ xs) = let rest = filter p xs in if p x then x ∷ rest else rest

  -- `xs.find(p)`
  abbrev pub find : (A → Bool) → List A → Option A
  find p [] = none
  find p (x ∷ xs) = let rest = find p xs in if p x then some x else rest

  -- `xs.some(p)`
  abbrev pub any : (A → Bool) → List A → Bool
  any p [] = false
  any p (x ∷ xs) = p x || any p xs

  abbrev pub sum : (A → ℕ) → List A → ℕ
  sum f [] = 0
  sum f (x ∷ xs) = f x + sum f xs

  pub length-append : (xs ys : List A) → length (xs ++ ys) ≡ length xs + length ys
  length-append [] ys = omega arith
  length-append (x ∷ xs) ys = omega (arith, length-append xs ys)

  pub sum-append : (f : A → ℕ) (xs ys : List A) → sum f (xs ++ ys) ≡ sum f xs + sum f ys
  sum-append f [] ys = omega arith
  sum-append f (x ∷ xs) ys = omega (arith, sum-append f xs ys)

  pub length-drop : (n : ℕ) (xs : List A) → length (drop n xs) ≡ length xs - n
  length-drop zero xs = omega arith
  length-drop (suc n) [] = omega arith
  length-drop (suc n) (x ∷ xs) = omega (arith, length-drop n xs)

  pub length-take : (n : ℕ) (xs : List A) → length (take n xs) ≡ min n (length xs)
  length-take zero xs = omega arith
  length-take (suc n) [] = omega arith
  length-take (suc n) (x ∷ xs) = omega (arith, length-take n xs)

  pub drop-append : (n : ℕ) (xs ys : List A) → n ≤ length xs → drop n (xs ++ ys) ≡ drop n xs ++ ys
  drop-append zero xs ys h = refl
  drop-append (suc n) [] ys h = absurd (omega arith)
  drop-append (suc n) (x ∷ xs) ys h = drop-append n xs ys (omega arith)

  pub drop-nil : (n : ℕ) → drop n [] ≡ []
  drop-nil zero = refl
  drop-nil (suc n) = refl

  pub drop-drop : (m n : ℕ) (xs : List A) → drop m (drop n xs) ≡ drop (n + m) xs
  drop-drop m zero xs = ap (λ k. drop k xs) (omega arith)
  drop-drop m (suc n) [] = drop-nil m ∙ sym (drop-nil (suc n + m))
  drop-drop m (suc n) (x ∷ xs) =
      let e : suc n + m ≡ suc (n + m) = omega arith in rw e (drop-drop m n xs)

  -- The last `k` elements; what `xs.splice(0, xs.length - k)` leaves of a longer array.
  abbrev pub last_n : ℕ → List A → List A
  last_n k xs = drop (length xs - k) xs

  pub last_n-push :
      (k : ℕ) (h : List A) (x : A) → last_n k (last_n k h ++ x ∷ []) ≡ last_n k (h ++ x ∷ [])
  last_n-push k h x =
      let b : ℕ = length h - k in
      let g : List A = h ++ x ∷ [] in
      let a : ℕ = length (drop b g) - k in
      let e : b + a ≡ length g - k = omega (arith, length-drop b g, length-append h (x ∷ [])) in
      ap (last_n k) (sym (drop-append b h (x ∷ []) (omega arith)))
      ∙ drop-drop a b g
      ∙ ap (λ n. drop n g) e

  -- `xs.slice(-k)`; `slice(-0)` is the whole array.
  abbrev pub slice_last : ℕ → List A → List A
  slice_last zero xs = xs
  slice_last (suc k) xs = drop (length xs - suc k) xs

  pub length-slice_last :
      (k : ℕ) (xs : List A) → length (slice_last (suc k) xs) ≡ min (suc k) (length xs)
  length-slice_last k xs = omega (arith, length-drop (length xs - suc k) xs)

  -- Keeping the last k + 1 of a history, one element at a time.
  pub slice_last-push :
      (k : ℕ) (h : List A) (x : A)
      → slice_last (suc k) (slice_last (suc (suc k)) h) ++ x ∷ []
        ≡ slice_last (suc (suc k)) (h ++ x ∷ [])
  slice_last-push k h x =
      let b : ℕ = length h - suc (suc k) in
      let a : ℕ = length (drop b h) - suc k in
      let below : b + a ≤ length h = omega (arith, length-drop b h) in
      let e : b + a ≡ length (h ++ x ∷ []) - suc (suc k) =
        omega (arith, length-drop b h, length-append h (x ∷ [])) in
      ap (λ l. l ++ x ∷ []) (drop-drop a b h)
      ∙ sym (drop-append (b + a) h (x ∷ []) below)
      ∙ ap (λ n. drop n (h ++ x ∷ [])) e

module _ {ℓ κ} {A : Type ℓ} (P : A → Type κ) where
  -- Every element of the list has the property.
  abbrev pub All : List A → Type κ
  All [] = Unit
  All (x ∷ xs) = P x × All xs

  pub All-append : (xs ys : List A) → All xs → All ys → All (xs ++ ys)
  All-append [] ys h k = k
  All-append (x ∷ xs) ys (p, h) k = (p, All-append xs ys h k)

  pub All-filter : (p : A → Bool) (xs : List A) → All xs → All (filter p xs)
  All-filter p [] h = tt
  All-filter p (x ∷ xs) h = ground (arith, All-filter p xs h.1)

  pub All-drop : (n : ℕ) (xs : List A) → All xs → All (drop n xs)
  All-drop zero xs h = h
  All-drop (suc n) [] h = tt
  All-drop (suc n) (x ∷ xs) h = All-drop n xs h.1

  pub All-find : (p : A → Bool) (xs : List A) {x : A} → All xs → find p xs ≡ some x → P x
  All-find p [] h e = absurd (cc)
  All-find p (y ∷ xs) {x} h e = elim (Bool-cases (p y)) [
    | inl hit ↦
        let same : some y ≡ some x = rw hit at e in let found : y ≡ x = cc in subst P found h.0
    | inr miss ↦ All-find p xs h.1 (ground (arith, miss, e))
  ]

  pub All-head : (xs : List A) {x : A} → All xs → head? xs ≡ some x → P x
  All-head [] h e = absurd (cc)
  All-head (y ∷ xs) {x} h e = let found : y ≡ x = cc in subst P found h.0

module _ {ℓ κ} {A : Type ℓ} {B : Type κ} where
  pub length-map : (f : A → B) (xs : List A) → length (map f xs) ≡ length xs
  length-map f [] = refl
  length-map f (x ∷ xs) = ap suc (length-map f xs)
