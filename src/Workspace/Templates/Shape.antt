-- ===== src/Workspace/Templates/Shape.antt =====
-- The shape of the projects that the templates make.
use learn_pg.Prelude.{
  ℕ, zero, suc, ◌+◌, ◌<◌, ◌≡◌, refl, ap, ap₂, ◌∙◌, Bool, true, false, List, [], ◌∷◌, String, length,
  if◌then◌else◌, ◌==◌, string_eq, nat_eq, All, All-append, arith, min, sum,
}
use learn_pg.Workspace.Types.{
  Node, Cluster, ComponentType, collector, analyzer, storage, Component, Settings,
}
use learn_pg.Workspace.Edits.{type_of_role}
use learn_pg.Workspace.Templates.{
  Template, single, physical_replication, logical_replication, Params, component_if,
  build_components, leader_role, follower_role, make_nodes, count_of, replication_of, build_project,
}

abbrev one_if : Bool → ℕ
one_if b = if b then 1 else 0

abbrev pub leads : Template → Node → ℕ
leads t n = one_if (n.role == leader_role t)

-- The cluster has `n` nodes, all of the template's type, and one leader if it has any node.
abbrev pub IsShaped : Template → ℕ → Cluster → Type 0
IsShaped t n c =
    (length c.nodes ≡ n)
    × (sum (leads t) c.nodes ≡ min 1 n)
    × (c.replication_type ≡ replication_of t)
    × All (λ m. m.cluster_type ≡ replication_of t) c.nodes

abbrev pub LinksOnly : String → Component → Type 0
LinksOnly id c = c.linked_cluster_ids ≡ id ∷ []

abbrev role_if : Template → Bool → String
role_if t b = if b then leader_role t else follower_role t

leads_if : (t : Template) (b : Bool) → one_if (role_if t b == leader_role t) ≡ one_if b
leads_if single true = refl
leads_if single false = refl
leads_if physical_replication true = refl
leads_if physical_replication false = refl
leads_if logical_replication true = refl
leads_if logical_replication false = refl

type_if : (t : Template) (b : Bool) → type_of_role (role_if t b) ≡ replication_of t
type_if single true = refl
type_if single false = refl
type_if physical_replication true = refl
type_if physical_replication false = refl
type_if logical_replication true = refl
type_if logical_replication false = refl

module _ (cfg : Settings) (t : Template) (ids : ℕ → String) where
  length-make_nodes : (n i : ℕ) → length (make_nodes cfg t ids n i) ≡ n
  unfolding make_nodes
  length-make_nodes zero i = refl
  length-make_nodes (suc n) i = ap suc (length-make_nodes n (i + 1))

  followers : (n i : ℕ) → 0 < i → sum (leads t) (make_nodes cfg t ids n i) ≡ 0
  unfolding make_nodes
  followers zero i h = refl
  followers (suc n) i h =
      let late : (i == 0) ≡ false = ground (arith, h) in
      ap₂ (λ a b. a + b) (leads_if t (i == 0) ∙ ap one_if late) (followers n (i + 1) (omega arith))

  leaders : (n : ℕ) → sum (leads t) (make_nodes cfg t ids n 0) ≡ min 1 n
  unfolding make_nodes
  leaders zero = refl
  leaders (suc n) = ap₂ (λ a b. a + b) (leads_if t true) (followers n 1 (omega arith)) ∙ omega arith

  types-make_nodes :
      (n i : ℕ) → All (λ m. m.cluster_type ≡ replication_of t) (make_nodes cfg t ids n i)
  unfolding make_nodes
  types-make_nodes zero i = tt
  types-make_nodes (suc n) i = (type_if t (i == 0), types-make_nodes n (i + 1))

component_if-LinksOnly :
    (wanted : Bool) (t : Template) (project id : String) (p : Params) (ids : ℕ → String)
    (type : ComponentType) (out : List Component)
    → All (LinksOnly id) out
    → All (LinksOnly id) (component_if wanted t project id p ids type out)
unfolding component_if
component_if-LinksOnly true t project id p ids type out h =
    All-append (LinksOnly id) out _ h (refl, tt)
component_if-LinksOnly false t project id p ids type out h = h

-- A template makes a project with one cluster, which has as many nodes as the template asks for (a
-- single server has one), all of the template's kind of replication, with exactly one leader if there is
-- any node; each component of the project is linked to that cluster and to no other.
pub build_project_lem :
    (cfg : Settings) (t : Template) (ids : ℕ → String) (name : String) (p : Params)
    → let made = build_project cfg t ids name p in
      (c : Cluster) × (made.clusters ≡ c ∷ [])
      × IsShaped t (count_of t p) c
      × All (LinksOnly c.id) made.components
unfolding build_project build_components
build_project_lem cfg t ids name p =
    let n : ℕ = count_of t p in
    let later : ℕ → String = λ i. ids (n + 2 + i) in
    (
      _,
      refl,
      (length-make_nodes cfg t ids n 0, leaders cfg t ids n, refl, types-make_nodes cfg t ids n 0),
      component_if-LinksOnly p.create_storage t name (ids n) p later storage _ (
          component_if-LinksOnly p.create_analyzer t name (ids n) p later analyzer _
            (component_if-LinksOnly p.create_collector t name (ids n) p later collector [] tt)),
    )
