-- ===== src/ClusterHome/Editing.antt =====
-- The forms of frontend/src/components/workspace/ClusterHomeView.tsx that edit a cluster or a node. A form
-- that is saved hands an edit of the workspace over.
use learn_pg.Prelude.{ℕ, Option, none, some, String, get_or, find, if◌then◌else◌, ◌==◌, string_eq}
use learn_pg.Workspace.Types.{Node, Cluster, Project, Patch}
use learn_pg.Workspace.Edits.{Edit, update_cluster_node}

-- `editingNodeData`
pub record NodeForm : Type 0 where
  pub name : String
  pub host : String
  pub port : ℕ
  pub user : String
  pub database : String
  pub role : String

pub record Forms : Type 0 where
  pub editing_cluster_id : String
  pub editing_cluster_name : String
  pub editing_cluster_threshold : ℕ
  pub editing_node_id : String
  pub editing_node_data : NodeForm

abbrev pub open_cluster : String → Option Cluster → Forms → Forms
open_cluster id none s = s
open_cluster id (some c) s = record s {
  editing_cluster_id = id;
  editing_cluster_name = c.name;
  editing_cluster_threshold = get_or c.alert_threshold_sec 30;
}

abbrev found_cluster : Option Project → String → Option Cluster
found_cluster none id = none
found_cluster (some p) id = find (λ c. c.id == id) p.clusters

unfoldable pub start_edit_cluster : Option Project → String → Forms → Forms
start_edit_cluster p id s = open_cluster id (found_cluster p id) s

abbrev pub cluster_patch : Forms → Patch
cluster_patch s = record {
  name = some s.editing_cluster_name;
  host = none;
  port = none;
  user = none;
  database = none;
  cluster_type = none;
  role = none;
  password = none;
  source = none;
  alert_threshold_sec = some s.editing_cluster_threshold;
}

unfoldable pub save_edit_cluster : Forms → Forms × Option Edit
save_edit_cluster s = if s.editing_cluster_id == "" then (s, none) else (
  record s { editing_cluster_id = "" },
  some (update_cluster_node s.editing_cluster_id "" (cluster_patch s)),
)

unfoldable pub cancel_edit_cluster : Forms → Forms
cancel_edit_cluster s = record s { editing_cluster_id = "" }

unfoldable pub start_edit_node : Node → Forms → Forms
start_edit_node n s = record s {
  editing_node_id = n.id;
  editing_node_data = record {
    name = n.name;
    host = n.host;
    port = n.port;
    user = n.user;
    database = n.database;
    role = n.role;
  };
}

abbrev pub node_patch : NodeForm → Patch
node_patch d = record {
  name = some d.name;
  host = some d.host;
  port = some d.port;
  user = some d.user;
  database = some d.database;
  cluster_type = none;
  role = some d.role;
  password = none;
  source = none;
  alert_threshold_sec = none;
}

abbrev saved_node : Option Cluster → Forms → Forms × Option Edit
saved_node none s = (s, none)
saved_node (some c) s = if s.editing_node_id == "" then (s, none) else (
  record s { editing_node_id = "" },
  some (update_cluster_node c.id s.editing_node_id (node_patch s.editing_node_data)),
)

unfoldable pub save_edit_node : Option Cluster → Forms → Forms × Option Edit
save_edit_node c s = saved_node c s

unfoldable pub cancel_edit_node : Forms → Forms
cancel_edit_node s = record s { editing_node_id = "" }
