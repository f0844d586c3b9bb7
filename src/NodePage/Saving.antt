-- ===== src/NodePage/Saving.antt =====
-- What saving an untouched form does to a project, on the node's page and on the cluster's page.
use learn_pg.Prelude.{
  ◌≡◌, ◌≢◌, ◌⊎◌, ◌∙◌, sym, subst, refl, ap, ap₂, true, false, Option, none, some, List, [], ◌∷◌,
  map, String, All, if◌then◌else◌, ◌==◌, string_eq, beq-ne, eq→beq, Bool-cases, inl, inr,
}
use learn_pg.Workspace.Types.{Node, Cluster, Project, Settings, Patch}
use learn_pg.Workspace.Edits.{
  Edit, update_cluster_node, edit_project, patch_node, patch_cluster, at_cluster,
}
use learn_pg.ClusterHome.Editing.{Forms, start_edit_node, node_patch, save_edit_node}
use learn_pg.NodePage.{EditForm, start_edit, form_patch, save_edit, on_update_node}

-- An edit that a page hands over, if any, done to the project.
abbrev pub edited_by : Settings → Option Edit → Project → Project
edited_by cfg none p = p
edited_by cfg (some e) p = edit_project cfg e p

-- The node with the connection of the store and an empty password.
abbrev pub reconnected : Settings → Node → Node
reconnected cfg n = record n {
  host = cfg.host;
  port = cfg.port;
  user = cfg.user;
  password = some "";
  database = cfg.database;
}

-- The elements of a list that have the id of `x` are `x`.
abbrev pub Unique : {A : Type 0} → (A → String) → A → List A → Type 0
Unique id_of x xs = All (λ y. (id_of y == id_of x) ≡ false ⊎ (y ≡ x)) xs

module _ {A : Type 0} (id_of : A → String) (x : A) where
  -- Functions that do the same to `x` do the same to the elements with its id.
  map-at :
      (f g : A → A) (xs : List A)
      → Unique id_of x xs
      → f x ≡ g x
      → map (λ y. if id_of y == id_of x then f y else y) xs
        ≡ map (λ y. if id_of y == id_of x then g y else y) xs
  map-at f g [] u e = refl
  map-at f g (y ∷ ys) (inl other, u) e = rw other (ap (λ zs. y ∷ zs) (map-at f g ys u e))
  map-at f g (y ∷ ys) (inr is_x, u) e =
      let same : (id_of y == id_of x) ≡ true = eq→beq (id_of y) (id_of x) (ap id_of is_x) in
      rw same (ap₂ (λ z zs. z ∷ zs) (subst (λ z. f z ≡ g z) (sym is_x) e) (map-at f g ys u e))

  map-at_id : (xs : List A) → map (λ y. if id_of y == id_of x then y else y) xs ≡ xs
  map-at_id [] = refl
  map-at_id (y ∷ ys) = elim (Bool-cases (id_of y == id_of x)) [
    | inl same ↦ rw same (ap (λ zs. y ∷ zs) (map-at_id ys))
    | inr other ↦ rw other (ap (λ zs. y ∷ zs) (map-at_id ys))
  ]

-- The node of the id is given the connection in the cluster of the id.
abbrev pub reconnected_in : Settings → (cluster_id node_id : String) → Project → Project
reconnected_in cfg cluster_id node_id =
    at_cluster cluster_id (λ d. record d {
      nodes = map (λ m. if m.id == node_id then reconnected cfg m else m) d.nodes;
    })

module _ (n : Node) (c : Cluster) (p : Project) where
  patch_cluster-at :
      (patch : Patch) (g : Node → Node)
      → n.id ≢ ""
      → Unique (λ m. m.id) n c.nodes
      → patch_node patch n ≡ g n
      → patch_cluster n.id patch c
        ≡ record c { nodes = map (λ m. if m.id == n.id then g m else m) c.nodes }
  patch_cluster-at patch g named u e =
      rw (beq-ne n.id "" named)
        (ap (λ ns. record c { nodes = ns }) (map-at (λ m. m.id) n (patch_node patch) g c.nodes u e))

  edit_project-at :
      (cfg : Settings) (patch : Patch) (g : Cluster → Cluster)
      → Unique (λ d. d.id) c p.clusters
      → patch_cluster n.id patch c ≡ g c
      → edit_project cfg (update_cluster_node c.id n.id patch) p ≡ at_cluster c.id g p
  unfolding edit_project
  edit_project-at cfg patch g u e =
      ap (λ cs. record p { clusters = cs })
        (map-at (λ d. d.id) c (patch_cluster n.id patch) g p.clusters u e)

  at_cluster-id : at_cluster c.id (λ d. d) p ≡ p
  at_cluster-id = ap (λ cs. record p { clusters = cs }) (map-at_id (λ d. d.id) c p.clusters)

-- A form that is opened for a node and saved as it is leaves the project as it was on the cluster's page;
-- on the node's page it gives the node the host, port, user and database of the connection store and an
-- empty password. The ids are not empty, and no other cluster of the project and no other node of the
-- cluster has them.
pub edit_project-untouched :
    (cfg : Settings) (n : Node) (c : Cluster) (p : Project) (f : Forms) (s : EditForm)
    → n.id ≢ ""
    → c.id ≢ ""
    → Unique (λ m. m.id) n c.nodes
    → Unique (λ d. d.id) c p.clusters
    → (edited_by cfg (save_edit_node (some c) (start_edit_node n f)).1 p ≡ p)
      × (edited_by cfg (on_update_node c.id (save_edit (some n) (start_edit cfg (some n) s)).1) p
          ≡ reconnected_in cfg c.id n.id p)
unfolding start_edit_node save_edit_node start_edit save_edit on_update_node
edit_project-untouched cfg n c p f s n_named c_named un uc = (
  rw (beq-ne n.id "" n_named) (
      edit_project-at n c p cfg untouched (λ d. d) uc
        (patch_cluster-at n c p untouched (λ m. m) n_named un refl
          ∙ ap (λ ns. record c { nodes = ns }) (map-at_id (λ m. m.id) n c.nodes))
      ∙ at_cluster-id n c p),
  rw (beq-ne c.id "" c_named) (
      edit_project-at n c p cfg from_store
        (λ d. record d { nodes = map (λ m. if m.id == n.id then reconnected cfg m else m) d.nodes })
        uc (patch_cluster-at n c p from_store (reconnected cfg) n_named un refl)),
)
  where
    untouched : Patch
    untouched = node_patch (start_edit_node n f).editing_node_data

    from_store : Patch
    from_store = form_patch (start_edit cfg (some n) s)
