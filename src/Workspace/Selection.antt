-- ===== src/Workspace/Selection.antt =====
-- The selection of `App` in frontend/src/App.tsx: the effect that completes it and the node it comes to.
pub mod Settles
use learn_pg.Prelude.{
  ◌≡◌, refl, sym, ap, ◌∙◌, subst, Bool, true, false, Option, none, some, List, [], ◌∷◌, String,
  head?, find, if◌then◌else◌, ◌==◌, string_eq, beq→eq, beq_refl, Bool-cases, Option-cases, inl, inr,
  arith,
}
use learn_pg.Workspace.Types.{Node, Cluster, Project, Workspace}

pub record Selection : Type 0 where
  pub project_id : String
  pub cluster_id : String
  pub node_id : String

module _ {A : Type 0} (id_of : A → String) where
  -- `xs.find((x) => x.id === id) ?? xs[0]`
  abbrev pub or_head : Option A → List A → Option A
  or_head none xs = head? xs
  or_head (some x) xs = some x

  unfoldable pub chosen : String → List A → Option A
  chosen id xs = or_head (find (λ x. id_of x == id) xs) xs

-- `id || d`, and `id === d ? id : d`, which is `d`.
abbrev pub or_id : String → String → String
or_id id d = if id == "" then d else id

abbrev pub first_node_id : List Node → String
first_node_id [] = ""
first_node_id (n ∷ ns) = n.id

abbrev pub complete_in_cluster : Option Cluster → Selection → Selection
complete_in_cluster none s = s
complete_in_cluster (some c) s = record s {
  cluster_id = c.id;
  node_id = or_id s.node_id (first_node_id c.nodes);
}

abbrev pub complete_in_project : Option Project → Selection → Selection
complete_in_project none s = s
complete_in_project (some p) s =
    complete_in_cluster (chosen (λ c. c.id) s.cluster_id p.clusters)
      (record s { project_id = or_id s.project_id p.id })

-- The effect on the selection.
unfoldable pub complete_selection : List Project → Selection → Selection
unfolding chosen
complete_selection ps s = complete_in_project (chosen (λ p. p.id) s.project_id ps) s

abbrev pub node_in : Option Cluster → String → Option Node
node_in none id = none
node_in (some c) id = or_head (λ n. n.id) (find (λ n. n.id == id) c.nodes) c.nodes

abbrev pub clusters_in : Option Project → List Cluster
clusters_in none = []
clusters_in (some p) = p.clusters

-- `selectedNodeConfig`
unfoldable pub selected_node_config : List Project → Selection → Option Node
unfolding chosen
selected_node_config ps s =
    node_in (find (λ c. c.id == s.cluster_id) (clusters_in (chosen (λ p. p.id) s.project_id ps)))
      s.node_id
