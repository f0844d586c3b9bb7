-- ===== src/Workspace/Edits.antt =====
-- The edits of the workspace in frontend/src/App.tsx. New ids are arguments.
use learn_pg.Prelude.{
  ℕ, ◌+◌, ◌||◌, not, Option, none, some, List, [], ◌∷◌, ◌++◌, map, String, length, head?, filter,
  find, any, get_or, if◌then◌else◌, ◌==◌, string_eq, nat_eq, ◌++ₛ◌, show,
}
use learn_pg.Workspace.Types.{
  ClusterType, physical, logical, manual, Node, Cluster, ComponentType, collector, Component,
  Project, Workspace, Settings, Patch,
}

-- `makeDefaultNode(idx)`, whose role is `primary` for the first node and else `standby`.
abbrev pub default_role : ℕ → String
default_role idx = if idx == 1 then "primary" else "standby"

abbrev pub type_of_role : String → ClusterType
type_of_role role = if role == "publisher" || role == "subscriber" then logical else physical

-- `makeDefaultNode(idx, role)`
abbrev pub make_node : Settings → String → ℕ → String → Node
make_node cfg id idx role = record {
  id = id;
  name = "Node " ++ₛ show idx;
  host = cfg.host;
  port = cfg.port;
  user = cfg.user;
  database = cfg.database;
  cluster_type = type_of_role role;
  role = role;
  password = none;
  source = some manual;
}

unfoldable pub make_default_node : Settings → String → ℕ → Node
make_default_node cfg id idx = make_node cfg id idx (default_role idx)

-- `projects.find((p) => p.id === selectedProjectId) ?? projects[0]`
abbrev or_first : Option Project → List Project → Option Project
or_first (some p) ps = some p
or_first none ps = head? ps

unfoldable pub selected_project : Workspace → Option Project
selected_project s = or_first (find (λ p. p.id == s.selected_project_id) s.projects) s.projects

-- `projects.map((p) => p.id === id ? f(p) : p)`, and the same on clusters, nodes and components.
abbrev pub at_project : String → (Project → Project) → Project → Project
at_project id f p = if p.id == id then f p else p

abbrev pub at_cluster : String → (Cluster → Cluster) → Project → Project
at_cluster id f p = record p { clusters = map (λ c. if c.id == id then f c else c) p.clusters }

abbrev pub at_component : String → (Component → Component) → Project → Project
at_component id f p = record p {
  components = map (λ c. if c.id == id then f c else c) p.components;
}

unfoldable pub default_cluster : Settings → (id node_id : String) → ℕ → Cluster
unfolding make_default_node
default_cluster cfg id node_id idx = record {
  id = id;
  name = "集群 " ++ₛ show idx;
  replication_type = physical;
  alert_threshold_sec = some 30;
  nodes = make_default_node cfg node_id 1 ∷ [];
}

unfoldable pub default_component : String → ℕ → Component
default_component id idx = record {
  id = id;
  name = "组件 " ++ₛ show idx;
  component_type = collector;
  linked_cluster_ids = [];
}

-- An optional member, which a patch may write.
abbrev patched : {A : Type 0} → Option A → Option A → Option A
patched none old = old
patched (some new) old = some new

abbrev pub patch_node : Patch → Node → Node
patch_node p n = record n {
  name = get_or p.name n.name;
  host = get_or p.host n.host;
  port = get_or p.port n.port;
  user = get_or p.user n.user;
  password = patched p.password n.password;
  database = get_or p.database n.database;
  cluster_type = get_or p.cluster_type n.cluster_type;
  role = get_or p.role n.role;
  source = patched p.source n.source;
}

-- A patch for no node is a patch of the cluster.
abbrev pub patch_cluster : String → Patch → Cluster → Cluster
patch_cluster node_id p c =
    if node_id == ""
    then record c {
      name = get_or p.name c.name;
      alert_threshold_sec = patched p.alert_threshold_sec c.alert_threshold_sec;
    }
    else record c { nodes = map (λ n. if n.id == node_id then patch_node p n else n) c.nodes }

abbrev pub or_kept : List Node → List Node → List Node
or_kept [] old = old
or_kept (n ∷ ns) old = n ∷ ns

-- A cluster keeps its last node.
unfoldable pub drop_node : String → Cluster → Cluster
drop_node node_id c = record c {
  nodes = or_kept (filter (λ n. not (n.id == node_id)) c.nodes) c.nodes;
}

unfoldable pub toggled : String → List String → List String
toggled id links =
    if any (λ x. x == id) links then filter (λ x. not (x == id)) links else links ++ id ∷ []

-- The edits inside the selected project.
pub data Edit : Type 0 where
  create_cluster : (id node_id : String) → Edit
  remove_cluster : (id : String) → Edit
  update_cluster_node : (cluster_id node_id : String) → Patch → Edit
  add_node : (cluster_id id : String) → Edit
  remove_node : (cluster_id node_id : String) → Edit
  create_component : (id : String) → Edit
  remove_component : (id : String) → Edit
  update_component : (id : String) → (name : Option String) → (type : Option ComponentType) → Edit
  toggle_link : (component_id cluster_id : String) → Edit

unfoldable pub edit_project : Settings → Edit → Project → Project
unfolding default_cluster default_component drop_node toggled make_default_node
edit_project cfg (create_cluster id node_id) p = record p {
  clusters = p.clusters ++ default_cluster cfg id node_id (length p.clusters + 1) ∷ [];
}
edit_project cfg (remove_cluster id) p = record p {
  clusters = filter (λ c. not (c.id == id)) p.clusters;
}
edit_project cfg (update_cluster_node cluster_id node_id patch) p =
    at_cluster cluster_id (patch_cluster node_id patch) p
edit_project cfg (add_node cluster_id id) p =
    at_cluster cluster_id
      (λ c. record c { nodes = c.nodes ++ make_default_node cfg id (length c.nodes + 1) ∷ [] }) p
edit_project cfg (remove_node cluster_id node_id) p = at_cluster cluster_id (drop_node node_id) p
edit_project cfg (create_component id) p = record p {
  components = p.components ++ default_component id (length p.components + 1) ∷ [];
}
edit_project cfg (remove_component id) p = record p {
  components = filter (λ c. not (c.id == id)) p.components;
}
edit_project cfg (update_component id name type) p =
    at_component id
      (λ c. record c { name = get_or name c.name; component_type = get_or type c.component_type }) p
edit_project cfg (toggle_link component_id cluster_id) p =
    at_component component_id
      (λ c. record c { linked_cluster_ids = toggled cluster_id c.linked_cluster_ids }) p

-- What an edit makes of the selected cluster.
unfoldable pub reselect : Edit → String → String
reselect (create_cluster id node_id) selected = id
reselect (remove_cluster id) selected = if selected == id then "" else selected
reselect e selected = selected

abbrev pub edit_in : Settings → Edit → Option Project → Workspace → Workspace
edit_in cfg e none s = s
edit_in cfg e (some sel) s = record s {
  projects = map (at_project sel.id (edit_project cfg e)) s.projects;
  selected_cluster_id = reselect e s.selected_cluster_id;
}

pub data Action : Type 0 where
  create_project : (id : String) → Action
  remove_project : (id : String) → Action
  update_project : (id : String) → (name : Option String) → Action
  edits : Edit → Action

abbrev first_id : Option Project → String
first_id none = ""
first_id (some p) = p.id

abbrev pub remaining : String → List Project → List Project
remaining id = filter (λ p. not (p.id == id))

abbrev pub deselect : String → Workspace → Workspace
deselect id s =
    if s.selected_project_id == id
    then record s { selected_project_id = first_id (head? s.projects); selected_cluster_id = "" }
    else s

unfoldable pub act : Settings → Action → Workspace → Workspace
unfolding edit_project
act cfg (create_project id) s = record s {
  projects =
      s.projects
      ++ record {
        id = id;
        name = "项目 " ++ₛ show (length s.projects + 1);
        clusters = [];
        components = [];
      }
        ∷ [];
  selected_project_id = id;
}
act cfg (remove_project id) s = deselect id (record s { projects = remaining id s.projects })
act cfg (update_project id name) s = record s {
  projects = map (at_project id (λ p. record p { name = get_or name p.name })) s.projects;
}
act cfg (edits e) s = edit_in cfg e (selected_project s) s

unfoldable pub run : Settings → List Action → Workspace → Workspace
unfolding act
run cfg [] s = s
run cfg (a ∷ rest) s = run cfg rest (act cfg a s)
