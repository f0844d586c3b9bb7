-- ===== src/LockGraph/Cycles/Soundness.antt =====
-- What the search for cycles reports.
use learn_pg.Prelude.{
  ℕ, zero, suc, ◌≤◌, ◌≡◌, sym, subst, inl, inr, true, ◌&&◌, List, [], ◌∷◌, ◌++◌, String, length,
  any, get_or, ◌==◌, string_eq, beq→eq, beq_refl, leb, arith, Bool-cases, All, All-append,
}
use learn_pg.Prelude.Map.{get}
use learn_pg.LockGraph.{LockNode, LockEdge}
use learn_pg.LockGraph.Cycles.{
  Adjacency, add_nodes, add_links, Search, fold_each, add_cycle, from_node, dfs, search_nodes,
  detect_cycle,
}
use learn_pg.LockGraph.Cycles.Neighbours.{Leads, get-Leads, adjacency-Leads}

-- Some edge leads from `s` to `t`.
abbrev pub HasEdge : List LockEdge → String → String → Type 0
HasEdge es s t = any (λ e. (e.source == s) && (e.target == t)) es ≡ true

module _ (R : String → String → Type 0) where
  -- Each node of the list is related to the next, and the last to `end`.
  abbrev pub Walks : List String → String → Type 0
  Walks [] end = Unit {0}
  Walks (x ∷ []) end = R x end
  Walks (x ∷ y ∷ path) end = R x y × Walks (y ∷ path) end

  -- At least two nodes, each related to the next, and the last to the first.
  abbrev pub IsCycle : List String → Type 0
  IsCycle [] = ⊥
  IsCycle (x ∷ path) = (1 ≤ length path) × Walks (x ∷ path) x

  Walks-push : (path : List String) (x y : String) → Walks path x → R x y → Walks (path ++ x ∷ []) y
  Walks-push [] x y w r = r
  Walks-push (a ∷ []) x y w r = (w, r)
  Walks-push (a ∷ b ∷ path) x y w r = (w.0, Walks-push (b ∷ path) x y w.1 r)

  Walks-tail :
      (x : String) (path : List String) (end : String) → Walks (x ∷ path) end → Walks path end
  Walks-tail x [] end w = tt
  Walks-tail x (y ∷ path) end w = w.1

  -- The rest of a walk from a node on it, back to that node.
  Walks-from_node :
      (node : String) (path : List String)
      → Walks path node
      → leb 2 (length (from_node node path)) ≡ true
      → IsCycle (from_node node path)
  unfolding from_node
  Walks-from_node node [] w h = absurd (cc)
  Walks-from_node node (x ∷ path) w h = elim (Bool-cases (x == node)) [
    | inl same ↦
        let long : 1 ≤ length path = ground (arith, h, same) in
        rw same (long, subst (λ y. Walks (x ∷ path) y) (sym (beq→eq x node same)) w)
    | inr other ↦
        let later : leb 2 (length (from_node node path)) ≡ true = rw other at h in
        rw other (Walks-from_node node path (Walks-tail x path node w) later)
  ]

  add_cycle-IsCycle :
      (c : List String) (s : Search)
      → (leb 2 (length c) ≡ true → IsCycle c)
      → All IsCycle s.cycles
      → All IsCycle (add_cycle c s).cycles
  add_cycle-IsCycle c s good h = elim (Bool-cases (leb 2 (length c))) [
    | inl long ↦ rw long (All-append IsCycle s.cycles _ h (good long, tt))
    | inr short ↦ rw short h
  ]

  fold_each-IsCycle :
      (Q : String → Type 0) (f : String → Search → Search) (ts : List String) (s : Search)
      → ((x : String) (t : Search) → Q x → All IsCycle t.cycles → All IsCycle (f x t).cycles)
      → All Q ts
      → All IsCycle s.cycles
      → All IsCycle (fold_each f ts s).cycles
  fold_each-IsCycle Q f [] s keeps q h = h
  fold_each-IsCycle Q f (x ∷ ts) s keeps q h =
      fold_each-IsCycle Q f ts (f x s) keeps q.1 (keeps x s q.0 h)

  module _ (adj : Adjacency) (leads : All (Leads R) adj) where
    dfs-IsCycle :
        (fuel : ℕ) (node : String) (path : List String) (s : Search)
        → Walks path node
        → All IsCycle s.cycles
        → All IsCycle (dfs fuel adj node path s).cycles
    unfolding dfs
    dfs-IsCycle zero node path s w h = h
    dfs-IsCycle (suc fuel) node path s w h = elim (Bool-cases (any (λ x. x == node) path)) [
      | inl back ↦
          rw back (add_cycle-IsCycle (from_node node path) s (Walks-from_node node path w) h)
      | inr ahead ↦ rw ahead (elim (Bool-cases (any (λ x. x == node) s.visited)) [
        | inl old ↦ rw old h
        | inr new ↦ rw new (
            fold_each-IsCycle (R node) (λ next t. dfs fuel adj next (path ++ node ∷ []) t)
              (get_or (get node adj) []) (record s { visited = node ∷ s.visited })
              (λ x t r g. dfs-IsCycle fuel x (path ++ node ∷ []) t (Walks-push path node x w r) g)
              (get-Leads R node adj leads) h)
      ])
    ]

    search_nodes-IsCycle :
        (fuel : ℕ) (ns : List LockNode) (cycles : List (List String))
        → All IsCycle cycles
        → All IsCycle (search_nodes fuel adj ns cycles)
    unfolding search_nodes
    search_nodes-IsCycle fuel [] cycles h = h
    search_nodes-IsCycle fuel (n ∷ ns) cycles h =
        search_nodes-IsCycle fuel ns _
          (dfs-IsCycle fuel n.id [] (record { visited = []; cycles = cycles }) tt h)

edges_lead :
    (es fs : List LockEdge)
    → ((s t : String) → HasEdge fs s t → HasEdge es s t)
    → All (λ e. HasEdge es e.source e.target) fs
edges_lead es [] keeps = tt
edges_lead es (f ∷ fs) keeps = (
  keeps f.source f.target (ground (arith, beq_refl f.source, beq_refl f.target)),
  edges_lead es fs (λ s t h. keeps s t (ground (arith, h))),
)

-- Whatever the graph and the fuel, every list of nodes that the search reports is a cycle of at least
-- two nodes: an edge leads from each to the next, and from the last to the first.
pub detect_cycle-IsCycle :
    (fuel : ℕ) (nodes : List LockNode) (edges : List LockEdge)
    → All (IsCycle (HasEdge edges)) (detect_cycle fuel nodes edges)
unfolding detect_cycle
detect_cycle-IsCycle fuel nodes edges =
    let R : String → String → Type 0 = HasEdge edges in
    search_nodes-IsCycle R (add_links edges (add_nodes nodes []))
      (adjacency-Leads R nodes edges (edges_lead edges edges (λ s t h. h))) fuel nodes [] tt
