-- ===== src/ClusterHome/Topology.antt =====
-- The edges that the topology draws and the details that a click on one shows.
use learn_pg.Prelude.{
  ◌≡◌, refl, sym, ◌∙◌, false, not, some, List, [], ◌∷◌, map, String, filter, find, ◌==◌, string_eq,
  beq_refl, beq-ne, NonEmpty, Bool-cases, Option-cases, inl, inr, All, All-find, All-head, subst,
  head?,
}
use learn_pg.Workspace.Types.{Node, Cluster}
use learn_pg.ClusterHome.{
  NodeStatus, EdgeInfo, leader, leader_role, edges_from, topology_edges, edge_label,
}
use learn_pg.ClusterHome.Detail.{detail_between, selected_edge_detail}
use learn_pg.ClusterHome.Edges.{NoArrow, edge_key, split_key-edge_key}

-- A node of the list is found by the id.
abbrev Found : List Node → String → Type 0
Found ns id = (m : Node) × (find (λ n. n.id == id) ns ≡ some m)

Found-cons : (n : Node) (ns : List Node) (id : String) → Found ns id → Found (n ∷ ns) id
Found-cons n ns id f = elim (Bool-cases (n.id == id)) [
  | inl hit ↦ (n, rw hit refl)
  | inr miss ↦ (f.0, rw miss f.1)
]

All-Found_cons :
    (n : Node) (ns ms : List Node) → All (λ m. Found ns m.id) ms → All (λ m. Found (n ∷ ns) m.id) ms
All-Found_cons n ns [] h = tt
All-Found_cons n ns (m ∷ ms) h = (Found-cons n ns m.id h.0, All-Found_cons n ns ms h.1)

-- Every node of a list is found in it by its id.
All-Found : (ns : List Node) → All (λ m. Found ns m.id) ns
All-Found [] = tt
All-Found (n ∷ ns) = ((n, rw (beq_refl n.id) refl), All-Found_cons n ns ns (All-Found ns))

-- The leader has every property that all nodes have.
All-leader : (P : Node → Type 0) (c : Cluster) {l : Node} → All P c.nodes → leader c ≡ some l → P l
All-leader P c {l} h e =
    elim (Option-cases (find (λ n. n.role == leader_role c.replication_type) c.nodes)) [
      | inl missing ↦
          let first : head? c.nodes ≡ some l = rw missing at e in All-head P c.nodes h first
      | inr (m, hit) ↦
          let same : some m ≡ some l = rw hit at e in All-find P _ c.nodes h (hit ∙ same)
    ]

module _ (c : Cluster) (statuses : List NodeStatus) where
  -- The edge leads to another node, and selecting it by its key shows the detail of its two nodes.
  abbrev pub IsDetailed : EdgeInfo → Type 0
  IsDetailed e =
      ((e.to == e.from) ≡ false)
      × ((from to : Node) × (find (λ n. n.id == e.from) c.nodes ≡ some from)
          × (find (λ n. n.id == e.to) c.nodes ≡ some to)
          × (selected_edge_detail (some c) statuses (edge_key e.from e.to)
              ≡ some (detail_between c statuses from to)))

  key-NonEmpty : (a b : String) → NonEmpty (edge_key a b)
  unfolding edge_key
  key-NonEmpty String.[] b = tt
  key-NonEmpty (String.◌∷◌ d a) b = tt

  selected_edge_detail-between :
      (a b : String) {from to : Node}
      → NoArrow a
      → NoArrow b
      → find (λ n. n.id == a) c.nodes ≡ some from
      → find (λ n. n.id == b) c.nodes ≡ some to
      → selected_edge_detail (some c) statuses (edge_key a b)
        ≡ some (detail_between c statuses from to)
  unfolding selected_edge_detail
  selected_edge_detail-between a b h k e f =
      rw
        (
          beq-ne (edge_key a b) "" (λ p. subst NonEmpty p (key-NonEmpty a b)),
          split_key-edge_key a b h k,
          e,
          f,
        )
        refl

  edges-IsDetailed :
      (l : Node) (ms : List Node)
      → NoArrow l.id
      → Found c.nodes l.id
      → All (λ n. NoArrow n.id) ms
      → All (λ n. Found c.nodes n.id) ms
      → All IsDetailed (
          map
            (λ n. record { from = l.id; to = n.id; label = edge_label c.replication_type })
            (filter (λ n. not (n.id == l.id)) ms))
  edges-IsDetailed l [] h f hs fs = tt
  edges-IsDetailed l (n ∷ ms) h f hs fs = elim (Bool-cases (n.id == l.id)) [
    | inl same ↦ rw same (edges-IsDetailed l ms h f hs.1 fs.1)
    | inr other ↦ rw other (
      (other, (f.0, fs.0.0, f.1, fs.0.1, selected_edge_detail-between l.id n.id h hs.0 f.1 fs.0.1)),
      edges-IsDetailed l ms h f hs.1 fs.1,
    )
  ]

  -- In a cluster whose node ids have no `->` in them, every edge of the topology leads to another node
  -- than it starts from, and selecting it by its key shows the detail of just these two nodes.
  pub topology_edges-IsDetailed :
      All (λ n. NoArrow n.id) c.nodes → All IsDetailed (topology_edges (some c))
  unfolding topology_edges
  topology_edges-IsDetailed h = elim (Option-cases (leader c)) [
    | inl missing ↦ rw missing tt
    | inr (l, hit) ↦
        subst (λ o. All IsDetailed (edges_from o c)) (sym hit)
          (edges-IsDetailed l c.nodes (All-leader (λ n. NoArrow n.id) c h hit)
            (All-leader (λ n. Found c.nodes n.id) c (All-Found c.nodes) hit) h (All-Found c.nodes))
  ]
