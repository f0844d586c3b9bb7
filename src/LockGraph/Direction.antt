-- ===== src/LockGraph/Direction.antt =====
-- The shape of the lock graph.
use mathlib.Core.Option.{some-injective}
use learn_pg.Prelude.{
  ◌+◌, ◌≡◌, ◌≢◌, refl, sym, ap, subst, ◌∙◌, inl, inr, Option, none, some, List, [], ◌∷◌, map,
  String, length, head?, string_eq, ◌++ₛ◌, show, arith, All, All-append, Option-cases,
}
use learn_pg.Prelude.Map.{get, All-set, All-get}
use learn_pg.Prelude.Number.{codes}
use learn_pg.LockGraph.{
  Row, LockNode, LockEdge, Graph, number_text, pid_of, backend_node, by_pid, column, lock_key,
  lock_node, with_lock, with_edge, add_lock, add_locks, build_lock_graph,
}

abbrev pub IsBackendId : String → Type 0
IsBackendId s = (rest : String) × (s ≡ "pid-" ++ₛ rest)

abbrev pub IsLockId : String → Type 0
IsLockId s = (rest : String) × (s ≡ "lock-" ++ₛ rest)

pub differ : (s t : String) → IsBackendId s → IsLockId t → t ≢ s
differ s t (a, p) (b, q) e =
    let heads : some 108 ≡ some 112 = ap (λ x. head? (codes x)) (sym q ∙ e ∙ p) in
    absurd (omega (arith, some-injective _ _ heads))

abbrev pub LeadsToLock : LockEdge → Type 0
LeadsToLock e = IsBackendId e.source × IsLockId e.target

abbrev IsSound : Graph → Type 0
IsSound g = All LeadsToLock g.edges × All (λ p. IsLockId p.1.id) g.by_key

by_pid-IsBackendId :
    (bs : List Row) (m : List (String × LockNode))
    → All (λ p. IsBackendId p.1.id) m
    → All (λ p. IsBackendId p.1.id) (by_pid bs m)
unfolding by_pid backend_node
by_pid-IsBackendId [] m h = h
by_pid-IsBackendId (b ∷ bs) m h = by_pid-IsBackendId bs _ (
    All-set (λ p. IsBackendId p.1.id) (number_text (pid_of b)) (backend_node b) m
      (λ j e. (number_text (pid_of b), refl)) h)

with_lock-IsSound :
    (l : Row) (o : Option LockNode) (g : Graph) → IsSound g → IsSound (with_lock l o g)
unfolding lock_node
with_lock-IsSound l (some n) g h = h
with_lock-IsSound l none g h = (
  h.0,
  All-set (λ p. IsLockId p.1.id) (lock_key l) (lock_node l (length g.by_key)) g.by_key
      (λ j e. (show (length g.by_key + 1), refl)) h.1,
)

abbrev IfSome : (LockNode → Type 0) → Option LockNode → Type 0
IfSome P none = Unit {0}
IfSome P (some n) = P n

IfSome-get :
    (P : LockNode → Type 0) (k : String) (m : List (String × LockNode))
    → All (λ p. P p.1) m
    → IfSome P (get k m)
IfSome-get P k m h = elim (Option-cases (get k m)) [
  | inl e ↦ subst (IfSome P) (sym e) tt
  | inr (n, e) ↦ subst (IfSome P) (sym e) (All-get (λ p. P p.1) k m h e)
]

with_edge-IsSound :
    (l : Row) (b n : Option LockNode) (g : Graph)
    → IfSome (λ x. IsBackendId x.id) b
    → IfSome (λ x. IsLockId x.id) n
    → IsSound g
    → IsSound (with_edge l b n g)
with_edge-IsSound l (some b) (some n) g p q h =
    (All-append LeadsToLock g.edges _ h.0 ((p, q), tt), h.1)
with_edge-IsSound l (some b) none g p q h = h
with_edge-IsSound l none (some n) g p q h = h
with_edge-IsSound l none none g p q h = h

add_locks-IsSound :
    (m : List (String × LockNode)) (ls : List Row) (g : Graph)
    → All (λ p. IsBackendId p.1.id) m
    → IsSound g
    → IsSound (add_locks m ls g)
unfolding add_locks add_lock
add_locks-IsSound m [] g b h = h
add_locks-IsSound m (l ∷ ls) g b h =
    let held : Graph = with_lock l (get (lock_key l) g.by_key) g in
    let sound : IsSound held = with_lock-IsSound l (get (lock_key l) g.by_key) g h in
    add_locks-IsSound m ls (add_lock m l g) b (
      with_edge-IsSound l (get (column "pid" "" l) m) (get (lock_key l) held.by_key) held
        (IfSome-get (λ x. IsBackendId x.id) (column "pid" "" l) m b)
        (IfSome-get (λ x. IsLockId x.id) (lock_key l) held.by_key sound.1) sound)

-- Where every edge leads from a backend to a lock, none continues another.
none_continue :
    (es fs : List LockEdge)
    → All LeadsToLock es
    → All LeadsToLock fs
    → All (λ e. All (λ f. e.target ≢ f.source) fs) es
none_continue [] fs h k = tt
none_continue (e ∷ es) fs h k = (against fs k, none_continue es fs h.1 k)
  where
    against : (gs : List LockEdge) → All LeadsToLock gs → All (λ f. e.target ≢ f.source) gs
    against [] k = tt
    against (f ∷ gs) k = (differ f.source e.target k.0.0 h.0.1, against gs k.1)

-- Every edge leads from a backend to a lock.
pub build_lock_graph-LeadsToLock :
    (backends locks : List Row) → All LeadsToLock (build_lock_graph backends locks).edges
unfolding build_lock_graph
build_lock_graph-LeadsToLock backends locks =
    (add_locks-IsSound (by_pid backends []) locks
      (record { nodes = map backend_node backends; edges = []; by_key = [] })
      (by_pid-IsBackendId backends [] tt) (tt, tt)).0

-- In the graph of any snapshot no edge continues another: no path is longer than one edge, and there is
-- no cycle.
pub build_lock_graph-Flat :
    (backends locks : List Row)
    → let g = build_lock_graph backends locks in
      All (λ e. All (λ f. e.target ≢ f.source) g.edges) g.edges
build_lock_graph-Flat backends locks =
    let sound = build_lock_graph-LeadsToLock backends locks in none_continue _ _ sound sound
