-- ===== src/LockGraph/Cycles/Neighbours.antt =====
-- What the entries of the map `adj` of `detectCycle` have in common.
use learn_pg.Prelude.{
  ◌≡◌, refl, sym, subst, inl, inr, Option, none, some, List, [], ◌∷◌, ◌++◌, String, get_or,
  string_eq, All, All-append, Option-cases,
}
use learn_pg.Prelude.Map.{get, All-set, All-get}
use learn_pg.LockGraph.{LockNode, LockEdge}
use learn_pg.LockGraph.Cycles.{Adjacency, add_nodes, push_target, add_links}

module _ (R : String → String → Type 0) where
  -- An entry leads from its key only to what `R` relates to it.
  abbrev pub Leads : (String × List String) → Type 0
  Leads p = All (R p.0) p.1

  pub get-Leads : (k : String) (adj : Adjacency) → All Leads adj → All (R k) (get_or (get k adj) [])
  get-Leads k adj h = elim (Option-cases (get k adj)) [
    | inl e ↦ subst (λ o. All (R k) (get_or o [])) (sym e) tt
    | inr (ts, e) ↦ subst (λ o. All (R k) (get_or o [])) (sym e) (All-get Leads k adj h e)
  ]

  add_nodes-Leads :
      (ns : List LockNode) (adj : Adjacency) → All Leads adj → All Leads (add_nodes ns adj)
  unfolding add_nodes
  add_nodes-Leads [] adj h = h
  add_nodes-Leads (n ∷ ns) adj h = add_nodes-Leads ns _ (All-set Leads n.id [] adj (λ j e. tt) h)

  push_target-Leads :
      (s t : String) (o : Option (List String)) (adj : Adjacency)
      → R s t
      → get s adj ≡ o
      → All Leads adj
      → All Leads (push_target s t o adj)
  push_target-Leads s t none adj p e h = h
  push_target-Leads s t (some ts) adj p e h =
      let old : All (R s) ts = All-get Leads s adj h e in
      let pushed : All (R s) (ts ++ t ∷ []) = All-append (R s) ts _ old (p, tt) in
      All-set Leads s (ts ++ t ∷ []) adj
        (λ j q. subst (λ i. All (R i) (ts ++ t ∷ [])) (sym q) pushed) h

  add_links-Leads :
      (es : List LockEdge) (adj : Adjacency)
      → All (λ e. R e.source e.target) es
      → All Leads adj
      → All Leads (add_links es adj)
  unfolding add_links
  add_links-Leads [] adj p h = h
  add_links-Leads (e ∷ es) adj p h =
      add_links-Leads es _ p.1
        (push_target-Leads e.source e.target (get e.source adj) adj p.0 refl h)

  -- The map leads along the edges that it was made of.
  pub adjacency-Leads :
      (ns : List LockNode) (es : List LockEdge)
      → All (λ e. R e.source e.target) es
      → All Leads (add_links es (add_nodes ns []))
  adjacency-Leads ns es p = add_links-Leads es (add_nodes ns []) p (add_nodes-Leads ns [] tt)
