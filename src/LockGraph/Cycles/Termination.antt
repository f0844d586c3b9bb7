-- ===== src/LockGraph/Cycles/Termination.antt =====
-- The fuel that the search for cycles takes.
use learn_pg.Prelude.{
  ℕ, zero, suc, ◌+◌, ◌≤◌, ◌<◌, ◌≡◌, refl, sym, ap, subst, ◌∙◌, inl, inr, Bool, true, false, Option,
  none, some, List, [], ◌∷◌, ◌++◌, String, length, any, sum, ltb, get_or, if◌then◌else◌, ◌==◌,
  string_eq, beq→eq, arith, Bool-cases,
}
use learn_pg.Prelude.Map.{get, set}
use learn_pg.LockGraph.{LockNode, LockEdge}
use learn_pg.LockGraph.Cycles.{
  Adjacency, add_nodes, push_target, add_links, Search, fold_each, add_cycle, from_node, dfs,
  search_nodes, detect_cycle,
}

abbrev seen : String → List String → Bool
seen x visited = any (λ y. y == x) visited

abbrev Grows : List String → List String → Type 0
Grows v w = (x : String) → seen x v ≡ true → seen x w ≡ true

abbrev one_unless : Bool → ℕ
one_unless b = if b then 0 else 1

-- How many keys of the map have not been visited.
abbrev unseen : Adjacency → List String → ℕ
unseen adj v = sum (λ p. one_unless (seen p.0 v)) adj

one_unless_mono : (b c : Bool) → (b ≡ true → c ≡ true) → one_unless c ≤ one_unless b
one_unless_mono true true h = omega arith
one_unless_mono true false h = absurd (cc (h refl))
one_unless_mono false true h = omega arith
one_unless_mono false false h = omega arith

unseen_mono : (adj : Adjacency) (v w : List String) → Grows v w → unseen adj w ≤ unseen adj v
unseen_mono [] v w g = omega arith
unseen_mono (p ∷ adj) v w g =
    omega (arith, one_unless_mono (seen p.0 v) (seen p.0 w) (g p.0), unseen_mono adj v w g)

unseen-le : (adj : Adjacency) (v : List String) → unseen adj v ≤ length adj
unseen-le [] v = omega arith
unseen-le (p ∷ adj) v = ground (arith, unseen-le adj v)

visit-Grows : (x : String) (v : List String) → Grows v (x ∷ v)
visit-Grows x v y h = ground (arith, h)

-- Visiting a key for the first time leaves fewer unseen.
unseen-visit :
    (adj : Adjacency) (x : String) (v : List String) {ts : List String}
    → get x adj ≡ some ts
    → seen x v ≡ false
    → unseen adj (x ∷ v) < unseen adj v
unfolding get
unseen-visit [] x v h new = absurd (cc)
unseen-visit ((k, us) ∷ adj) x v h new = elim (Bool-cases (k == x)) [
  | inl same ↦
      let hit : k ≡ x = beq→eq k x same in
      let fresh : seen k v ≡ false = ap (λ y. seen y v) hit ∙ new in
      let now : seen k (x ∷ v) ≡ true = ground (arith, string_eq.same_iff x k, sym hit) in
      let less : unseen adj (x ∷ v) ≤ unseen adj v = unseen_mono adj v (x ∷ v) (visit-Grows x v) in
      omega (arith, less, ap one_unless fresh, ap one_unless now)
  | inr other ↦
      let later : get x adj ≡ some _ = rw other at h in
      let less : one_unless (seen k (x ∷ v)) ≤ one_unless (seen k v) =
        one_unless_mono (seen k v) (seen k (x ∷ v)) (visit-Grows x v k) in
      omega (arith, less, unseen-visit adj x v later new)
]

add_cycle-visited : (c : List String) (s : Search) → (add_cycle c s).visited ≡ s.visited
add_cycle-visited c s = ground arith

fold_each-Grows :
    (f : String → Search → Search) (ts : List String) (s : Search)
    → ((x : String) (t : Search) → Grows t.visited (f x t).visited)
    → Grows s.visited (fold_each f ts s).visited
fold_each-Grows f [] s g x h = h
fold_each-Grows f (t ∷ ts) s g x h = fold_each-Grows f ts (f t s) g x (g t s x h)

dfs-Grows :
    (fuel : ℕ) (adj : Adjacency) (node : String) (path : List String) (s : Search)
    → Grows s.visited (dfs fuel adj node path s).visited
unfolding dfs
dfs-Grows zero adj node path s x h = h
dfs-Grows (suc fuel) adj node path s x h = elim (Bool-cases (seen node path)) [
  | inl back ↦
      rw back (subst (λ v. seen x v ≡ true) (sym (add_cycle-visited (from_node node path) s)) h)
  | inr ahead ↦ rw ahead (elim (Bool-cases (seen node s.visited)) [
    | inl old ↦ rw old h
    | inr new ↦ rw new (
        fold_each-Grows (λ next t. dfs fuel adj next (path ++ node ∷ []) t)
          (get_or (get node adj) []) (record s { visited = node ∷ s.visited })
          (λ y t. dfs-Grows fuel adj y (path ++ node ∷ []) t) x (visit-Grows node s.visited x h))
  ])
]

module _ (adj : Adjacency) where
  -- As long as there is more fuel than unseen keys, one more changes nothing.
  each-enough :
      (fuel : ℕ) (path : List String) (ts : List String) (s : Search)
      → ((x : String) (t : Search)
          → unseen adj t.visited < fuel
          → dfs fuel adj x path t ≡ dfs (suc fuel) adj x path t)
      → unseen adj s.visited < fuel
      → fold_each (λ x t. dfs fuel adj x path t) ts s
        ≡ fold_each (λ x t. dfs (suc fuel) adj x path t) ts s
  each-enough fuel path [] s ih h = refl
  each-enough fuel path (x ∷ ts) s ih h =
      let less : unseen adj (dfs fuel adj x path s).visited ≤ unseen adj s.visited =
        unseen_mono adj s.visited _ (dfs-Grows fuel adj x path s) in
      each-enough fuel path ts (dfs fuel adj x path s) ih (omega (arith, less, h))
      ∙ ap (λ t. fold_each (λ x t. dfs (suc fuel) adj x path t) ts t) (ih x s h)

  deeper-enough :
      (fuel : ℕ) (node : String) (path : List String) (s : Search) (o : Option (List String))
      → get node adj ≡ o
      → seen node s.visited ≡ false
      → unseen adj s.visited < suc fuel
      → ((x : String) (p : List String) (t : Search)
          → unseen adj t.visited < fuel
          → dfs fuel adj x p t ≡ dfs (suc fuel) adj x p t)
      → fold_each
          (λ x t. dfs fuel adj x (path ++ node ∷ []) t)
          (get_or o [])
          (record s { visited = node ∷ s.visited })
        ≡ fold_each
            (λ x t. dfs (suc fuel) adj x (path ++ node ∷ []) t)
            (get_or o [])
            (record s { visited = node ∷ s.visited })
  deeper-enough fuel node path s none e new h ih = refl
  deeper-enough fuel node path s (some ts) e new h ih =
      each-enough fuel (path ++ node ∷ []) ts (record s { visited = node ∷ s.visited })
        (λ x t. ih x (path ++ node ∷ []) t)
        (omega (arith, unseen-visit adj node s.visited e new, h))

  dfs-enough :
      (fuel : ℕ) (node : String) (path : List String) (s : Search)
      → unseen adj s.visited < fuel
      → dfs fuel adj node path s ≡ dfs (suc fuel) adj node path s
  unfolding dfs
  dfs-enough zero node path s h = absurd (omega (arith, h))
  dfs-enough (suc fuel) node path s h = elim (Bool-cases (seen node path)) [
    | inl back ↦ rw back refl
    | inr ahead ↦ rw ahead (elim (Bool-cases (seen node s.visited)) [
      | inl old ↦ rw old refl
      | inr new ↦ rw new (
          deeper-enough fuel node path s (get node adj) refl new h
            (λ x p t k. dfs-enough fuel x p t k))
    ])
  ]

  search_nodes-enough :
      (fuel : ℕ) (ns : List LockNode) (cycles : List (List String))
      → length adj < fuel
      → search_nodes fuel adj ns cycles ≡ search_nodes (suc fuel) adj ns cycles
  unfolding search_nodes
  search_nodes-enough fuel [] cycles h = refl
  search_nodes-enough fuel (n ∷ ns) cycles h =
      let start : Search = record { visited = []; cycles = cycles } in
      search_nodes-enough fuel ns (dfs fuel adj n.id [] start).cycles h
      ∙ ap (λ t. search_nodes (suc fuel) adj ns t.cycles)
          (dfs-enough fuel n.id [] start (omega (arith, unseen-le adj [], h)))

length-set_le :
    (k : String) (ts : List String) (adj : Adjacency) → length (set k ts adj) ≤ suc (length adj)
unfolding set
length-set_le k ts [] = omega arith
length-set_le k ts ((j, us) ∷ adj) = ground (arith, length-set_le k ts adj)

length-set_known :
    (k : String) (ts : List String) (adj : Adjacency) {us : List String}
    → get k adj ≡ some us
    → length (set k ts adj) ≡ length adj
unfolding get set
length-set_known k ts [] h = absurd (cc)
length-set_known k ts ((j, us) ∷ adj) h = elim (Bool-cases (j == k)) [
  | inl same ↦ rw same refl
  | inr other ↦
      let later : get k adj ≡ some _ = rw other at h in
      rw other (ap suc (length-set_known k ts adj later))
]

length-add_nodes :
    (ns : List LockNode) (adj : Adjacency) → length (add_nodes ns adj) ≤ length ns + length adj
unfolding add_nodes
length-add_nodes [] adj = omega arith
length-add_nodes (n ∷ ns) adj =
    omega (arith, length-add_nodes ns (set n.id [] adj), length-set_le n.id [] adj)

length-push_target :
    (s t : String) (o : Option (List String)) (adj : Adjacency)
    → get s adj ≡ o
    → length (push_target s t o adj) ≡ length adj
length-push_target s t none adj e = refl
length-push_target s t (some ts) adj e = length-set_known s (ts ++ t ∷ []) adj e

length-add_links : (es : List LockEdge) (adj : Adjacency) → length (add_links es adj) ≡ length adj
unfolding add_links
length-add_links [] adj = refl
length-add_links (e ∷ es) adj =
    length-add_links es _ ∙ length-push_target e.source e.target (get e.source adj) adj refl

-- On any graph the search ends: with any fuel above the number of nodes it finds what it finds with one
-- more than that number.
pub detect_cycle_ends :
    (fuel : ℕ) (nodes : List LockNode) (edges : List LockEdge)
    → length nodes < fuel
    → detect_cycle fuel nodes edges ≡ detect_cycle (suc (length nodes)) nodes edges
unfolding detect_cycle
detect_cycle_ends zero nodes edges h = absurd (omega (arith, h))
detect_cycle_ends (suc fuel) nodes edges h =
    let adj : Adjacency = add_links edges (add_nodes nodes []) in
    let small : length adj ≤ length nodes =
      omega (arith, length-add_links edges (add_nodes nodes []), length-add_nodes nodes []) in
    elim (Bool-cases (ltb (length nodes) fuel)) [
      | inl below ↦
          let room : length nodes < fuel = ground (arith, below) in
          sym (search_nodes-enough adj fuel nodes [] (omega (arith, small, room)))
          ∙ detect_cycle_ends fuel nodes edges room
      | inr least ↦
          let same : fuel ≡ length nodes = ground (arith, least, h) in
          ap (λ k. search_nodes (suc k) adj nodes []) same
    ]
