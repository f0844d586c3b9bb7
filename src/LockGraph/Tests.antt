-- ===== src/LockGraph/Tests.antt =====
-- Tests of the lock graph.
use learn_pg.Prelude.{show, ◌≡◌, ◌≢◌, refl, List, [], ◌∷◌, map, String, arith, All}
use learn_pg.Prelude.Map.{get, set}
use learn_pg.Prelude.Number.{num, parse_number}
use learn_pg.LockGraph.{
  Row, LockNode, LockEdge, lock, backend_node, by_pid, lock_key, lock_label, lock_node, add_lock,
  add_locks, build_lock_graph,
}
use learn_pg.LockGraph.Direction.{build_lock_graph-Flat}
use learn_pg.LockGraph.Cycles.{add_nodes, add_links, dfs, search_nodes, from_node, detect_cycle}
use learn_pg.LockGraph.Cycles.Termination.{detect_cycle_ends}
use learn_pg.LockGraph.Cycles.Soundness.{HasEdge, IsCycle, detect_cycle-IsCycle}
use learn_pg.LockGraph.Cycles.Absence.{detect_cycle-nil}

abbrev node : String → LockNode
node id = record { id = id; pid = num 0; label = id; type = lock }

abbrev edge : String → String → LockEdge
edge s t = record { source = s; target = t; wait_time_us = 0; mode = "m" }

-- A cycle of two nodes is found from each of them.
finds_cycle :
    detect_cycle 9 (node "a" ∷ node "b" ∷ []) (edge "a" "b" ∷ edge "b" "a" ∷ [])
    ≡ ("a" ∷ "b" ∷ []) ∷ ("b" ∷ "a" ∷ []) ∷ []
unfolding detect_cycle search_nodes dfs from_node add_nodes add_links get set
finds_cycle = refl

abbrev locked : String → String → String → Row
locked pid relation granted =
    ("pid", pid)
    ∷ ("locktype", "relation")
    ∷ ("relation", relation)
    ∷ ("mode", "m")
    ∷ ("granted", granted)
    ∷ []

abbrev backends : List Row
backends = (("pid", "7") ∷ []) ∷ (("pid", "8") ∷ []) ∷ []

-- Each of two backends holds what the other waits for.
abbrev locks : List Row
locks =
    locked "7" "r" "true"
    ∷ locked "8" "s" "true"
    ∷ locked "7" "s" "false"
    ∷ locked "8" "r" "false"
    ∷ []

edges_of_deadlock :
    map (λ e. e.target) (build_lock_graph backends locks).edges
    ≡ "lock-1" ∷ "lock-2" ∷ "lock-2" ∷ "lock-1" ∷ []
unfolding build_lock_graph add_locks add_lock by_pid backend_node lock_node lock_label lock_key get
    set parse_number show
edges_of_deadlock = refl

build_lock_graph-Flat_example :
    All
      (λ e. All (λ f. e.target ≢ f.source) (build_lock_graph backends locks).edges)
      (build_lock_graph backends locks).edges
build_lock_graph-Flat_example = build_lock_graph-Flat backends locks

detect_cycle-nil_example :
    detect_cycle 5 (build_lock_graph backends locks).nodes (build_lock_graph backends locks).edges
    ≡ []
detect_cycle-nil_example = detect_cycle-nil 5 backends locks (omega arith)

detect_cycle_ends_example :
    detect_cycle 9 (node "a" ∷ node "b" ∷ []) (edge "a" "b" ∷ edge "b" "a" ∷ [])
    ≡ detect_cycle 3 (node "a" ∷ node "b" ∷ []) (edge "a" "b" ∷ edge "b" "a" ∷ [])
detect_cycle_ends_example =
    detect_cycle_ends 9 (node "a" ∷ node "b" ∷ []) (edge "a" "b" ∷ edge "b" "a" ∷ []) (omega arith)

detect_cycle-IsCycle_example :
    All
      (IsCycle (HasEdge (edge "a" "b" ∷ edge "b" "a" ∷ [])))
      (detect_cycle 9 (node "a" ∷ node "b" ∷ []) (edge "a" "b" ∷ edge "b" "a" ∷ []))
detect_cycle-IsCycle_example =
    detect_cycle-IsCycle 9 (node "a" ∷ node "b" ∷ []) (edge "a" "b" ∷ edge "b" "a" ∷ [])
