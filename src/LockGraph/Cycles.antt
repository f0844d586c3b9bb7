-- ===== src/LockGraph/Cycles.antt =====
-- `detectCycle` of frontend/src/components/lock/LockGraphView.tsx. The fuel bounds the depth of `dfs`.
pub mod Neighbours
pub mod Absence
pub mod Termination
pub mod Soundness
use learn_pg.Prelude.{
  ℕ, zero, suc, Bool, true, false, Option, none, some, List, [], ◌∷◌, ◌++◌, String, length, any,
  get_or, if◌then◌else◌, ◌==◌, string_eq, leb,
}
use learn_pg.Prelude.Map.{get, set}
use learn_pg.LockGraph.{LockNode, LockEdge}

abbrev pub Adjacency : Type 0
Adjacency = List (String × List String)

-- `nodes.forEach((n) => adj.set(n.id, []))`
unfoldable pub add_nodes : List LockNode → Adjacency → Adjacency
add_nodes [] adj = adj
add_nodes (n ∷ ns) adj = add_nodes ns (set n.id [] adj)

-- `adj.get(src)?.push(tgt)`
abbrev pub push_target : String → String → Option (List String) → Adjacency → Adjacency
push_target src tgt none adj = adj
push_target src tgt (some ts) adj = set src (ts ++ tgt ∷ []) adj

unfoldable pub add_links : List LockEdge → Adjacency → Adjacency
add_links [] adj = adj
add_links (e ∷ es) adj = add_links es (push_target e.source e.target (get e.source adj) adj)

pub record Search : Type 0 where
  pub visited : List String
  pub cycles : List (List String)

-- `path.slice(path.indexOf(node))`
unfoldable pub from_node : String → List String → List String
from_node node [] = []
from_node node (x ∷ path) = let rest = from_node node path in if x == node then x ∷ path else rest

abbrev pub add_cycle : List String → Search → Search
add_cycle cycle s = if leb 2 (length cycle) then record s { cycles = s.cycles ++ cycle ∷ [] } else s

abbrev pub fold_each : (String → Search → Search) → List String → Search → Search
fold_each f [] s = s
fold_each f (x ∷ xs) s = fold_each f xs (f x s)

unfoldable pub dfs : ℕ → Adjacency → String → List String → Search → Search
unfolding from_node
dfs zero adj node path s = s
dfs (suc fuel) adj node path s =
    let deeper =
      fold_each (λ next t. dfs fuel adj next (path ++ node ∷ []) t) (get_or (get node adj) [])
        (record s { visited = node ∷ s.visited }) in
    if any (λ x. x == node) path
    then add_cycle (from_node node path) s
    else if any (λ x. x == node) s.visited
    then s
    else deeper

unfoldable pub search_nodes :
    ℕ → Adjacency → List LockNode → List (List String) → List (List String)
unfolding dfs
search_nodes fuel adj [] cycles = cycles
search_nodes fuel adj (n ∷ ns) cycles =
    search_nodes fuel adj ns
      (dfs fuel adj n.id [] (record { visited = []; cycles = cycles })).cycles

unfoldable pub detect_cycle : ℕ → List LockNode → List LockEdge → List (List String)
unfolding search_nodes add_nodes add_links
detect_cycle fuel nodes edges = search_nodes fuel (add_links edges (add_nodes nodes [])) nodes []
