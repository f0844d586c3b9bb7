-- ===== src/Prelude/Map.antt =====
-- The JavaScript `Map`: entries in insertion order, a second `set` of a key keeps its place.
use Prim.Native.Nat.{ℕ, ◌+◌}
use mathlib.Core.Bool.{false}
use learn_pg.Prelude.Lists.{All, sum}
use learn_pg.Prelude.Tests.{if◌then◌else◌, Bool-cases}
use mathlib.Core.Logic.{inl, inr}
use learn_pg.Prelude.Classes.{Equality, ◌==◌, beq→eq}
use mathlib.Core.Path.{◌≡◌, refl, subst}
use mathlib.Core.List.{List, [], ◌∷◌}
use mathlib.Core.Option.{Option, none, some}
use native.Mathlib.Omega.{arith}

module _ {ℓ κ} {K : Type ℓ} {V : Type κ} ⦃e : Equality K⦄ where
  unfoldable pub get : K → List (K × V) → Option V
  get k [] = none
  get k ((j, v) ∷ m) = if j == k then some v else get k m

  unfoldable pub set : K → V → List (K × V) → List (K × V)
  set k v [] = (k, v) ∷ []
  set k v ((j, w) ∷ m) = if j == k then (j, v) ∷ m else (j, w) ∷ set k v m

  pub get-set :
      (k j : K) (v : V) (m : List (K × V))
      → get j (set k v m) ≡ (if k == j then some v else get j m)
  unfolding get set
  get-set k j v [] = refl
  get-set k j v ((i, w) ∷ m) =
      ground (arith, e.same_iff k j, e.same_iff i k, e.same_iff i j, get-set k j v m)

abbrev pub weight {ℓ} : {V : Type ℓ} → (V → ℕ) → Option V → ℕ
weight f none = 0
weight f (some v) = f v

module _ {ℓ κ} {K : Type ℓ} {V : Type κ} where
  abbrev pub keys : List (K × V) → List K
  keys [] = []
  keys ((k, v) ∷ m) = k ∷ keys m

  abbrev pub values : List (K × V) → List V
  values [] = []
  values ((k, v) ∷ m) = v ∷ values m

module _ {ℓ κ} {K : Type ℓ} {V : Type κ} ⦃e : Equality K⦄ where
  -- No key has two entries.
  abbrev pub DistinctKeys : List (K × V) → Type 0
  DistinctKeys [] = Unit {0}
  DistinctKeys (p ∷ m) = All (λ q. (p.0 == q.0) ≡ false) m × DistinctKeys m

  pub All-set {ι} :
      (P : (K × V) → Type ι) (k : K) (v : V) (m : List (K × V))
      → ((j : K) → j ≡ k → P (j, v))
      → All P m
      → All P (set k v m)
  unfolding set
  All-set P k v [] new h = (new k refl, tt)
  All-set P k v ((j, w) ∷ m) new h =
      ground (arith, e.same_iff j k, new j, h, All-set P k v m new h.1)

  pub DistinctKeys-set :
      (k : K) (v : V) (m : List (K × V)) → DistinctKeys m → DistinctKeys (set k v m)
  unfolding set
  DistinctKeys-set k v [] d = (tt, tt)
  DistinctKeys-set k v ((j, w) ∷ m) d = ground (
    arith,
    e.same_iff j k,
    DistinctKeys-set k v m d.1,
    λ (miss : (j == k) ≡ false).
        All-set (λ q. (j == q.0) ≡ false) k v m (λ i p. ground (arith, miss)) d.0,
  )

  pub All-get {ι} :
      (P : (K × V) → Type ι) (k : K) (m : List (K × V)) {v : V}
      → All P m
      → get k m ≡ some v
      → P (k, v)
  unfolding get
  All-get P k [] h g = absurd (cc)
  All-get P k ((j, w) ∷ m) {v} h g = elim (Bool-cases (j == k)) [
    | inl hit ↦ subst P (ground (arith, hit, g, beq→eq j k hit)) h.0
    | inr miss ↦ All-get P k m h.1 (ground (arith, miss, g))
  ]

  -- The sum over the values: a `set` takes out what the key had and puts the new value in.
  pub sum-set :
      (f : V → ℕ) (k : K) (v : V) (m : List (K × V))
      → sum f (values (set k v m)) + weight f (get k m) ≡ sum f (values m) + f v
  unfolding get set
  sum-set f k v [] = omega arith
  sum-set f k v ((j, w) ∷ m) = ground (arith, sum-set f k v m)
