-- ===== src/LockGraph/Cycles/Absence.antt =====
-- The search for cycles in the lock graph of a snapshot.
use learn_pg.Prelude.{
  ℕ, zero, suc, ◌≤◌, ◌≡◌, refl, sym, ◌∙◌, inl, inr, false, List, [], ◌∷◌, String, any, get_or, ◌==◌,
  string_eq, beq-ne, arith, All, Bool-cases,
}
use learn_pg.Prelude.Map.{get}
use learn_pg.LockGraph.{Row, LockNode, build_lock_graph}
use learn_pg.LockGraph.Direction.{IsBackendId, IsLockId, differ, build_lock_graph-LeadsToLock}
use learn_pg.LockGraph.Cycles.Neighbours.{Leads, get-Leads, adjacency-Leads}
use learn_pg.LockGraph.Cycles.{
  Adjacency, add_nodes, add_links, Search, fold_each, dfs, search_nodes, detect_cycle,
}

abbrev IsStep : String → String → Type 0
IsStep s t = IsBackendId s × IsLockId t

-- Every entry leads from a backend to locks, or nowhere.
abbrev Flat : (String × List String) → Type 0
Flat = Leads IsStep

-- A lock leads nowhere.
lock_ends : (k : String) (ts : List String) → IsLockId k → All (IsStep k) ts → ts ≡ []
lock_ends k [] l h = refl
lock_ends k (t ∷ ts) l h = absurd (differ k k h.0.0 l refl)

module _ (adj : Adjacency) (flat : All Flat adj) where
  -- From a lock that is not on the path nothing is found.
  dfs-lock :
      (fuel : ℕ) (b t : String) (s : Search)
      → IsStep b t
      → (dfs (suc fuel) adj t (b ∷ []) s).cycles ≡ s.cycles
  unfolding dfs
  dfs-lock fuel b t s p =
      let off : (b == t) ≡ false = beq-ne b t (λ e. differ b t p.0 p.1 (sym e)) in
      let ends : get_or (get t adj) [] ≡ [] =
        lock_ends t (get_or (get t adj) []) p.1 (get-Leads IsStep t adj flat) in
      rw (off, ends)
        (elim (Bool-cases (any (λ x. x == t) s.visited)) [
          | inl seen ↦ rw seen refl
          | inr fresh ↦ rw fresh refl
        ])

  each-lock :
      (fuel : ℕ) (b : String) (ts : List String) (s : Search)
      → All (IsStep b) ts
      → (fold_each (λ next t. dfs (suc fuel) adj next (b ∷ []) t) ts s).cycles ≡ s.cycles
  each-lock fuel b [] s h = refl
  each-lock fuel b (t ∷ ts) s h =
      each-lock fuel b ts (dfs (suc fuel) adj t (b ∷ []) s) h.1 ∙ dfs-lock fuel b t s h.0

  search_nodes-nil :
      (fuel : ℕ) (ns : List LockNode) (cycles : List (List String))
      → search_nodes (suc (suc fuel)) adj ns cycles ≡ cycles
  unfolding search_nodes dfs
  search_nodes-nil fuel [] cycles = refl
  search_nodes-nil fuel (n ∷ ns) cycles =
      search_nodes-nil fuel ns _
      ∙ each-lock fuel n.id (get_or (get n.id adj) [])
          (record { visited = n.id ∷ []; cycles = cycles }) (get-Leads IsStep n.id adj flat)

-- In the lock graph of any snapshot the search reports no cycle, whatever the locks and who waits for
-- them, with any fuel from two on.
pub detect_cycle-nil :
    (fuel : ℕ) (backends locks : List Row)
    → 2 ≤ fuel
    → let g = build_lock_graph backends locks in detect_cycle fuel g.nodes g.edges ≡ []
unfolding detect_cycle
detect_cycle-nil zero backends locks h = absurd (omega arith)
detect_cycle-nil (suc zero) backends locks h = absurd (omega arith)
detect_cycle-nil (suc (suc fuel)) backends locks h =
    let g = build_lock_graph backends locks in
    search_nodes-nil (add_links g.edges (add_nodes g.nodes []))
      (adjacency-Leads IsStep g.nodes g.edges (build_lock_graph-LeadsToLock backends locks)) fuel
      g.nodes []
