-- ===== src/NodePage.antt =====
-- The form of frontend/src/components/node/NodeHomeView.tsx that edits the selected node. `cfg` is the
-- `config` of frontend/src/stores/pgStore.ts.
pub mod Saving
mod Tests
use learn_pg.Prelude.{
  ℕ, Bool, true, false, Option, none, some, String, if◌then◌else◌, ◌==◌, string_eq,
}
use learn_pg.Workspace.Types.{Node, Settings, Patch}
use learn_pg.Workspace.Edits.{Edit, update_cluster_node}

pub record EditForm : Type 0 where
  pub is_editing : Bool
  pub edit_name : String
  pub edit_host : String
  pub edit_port : ℕ
  pub edit_user : String
  pub edit_password : String
  pub edit_database : String
  pub edit_role : String

unfoldable pub start_edit : Settings → Option Node → EditForm → EditForm
start_edit cfg none s = s
start_edit cfg (some n) s = record {
  is_editing = true;
  edit_name = n.name;
  edit_host = cfg.host;
  edit_port = cfg.port;
  edit_user = cfg.user;
  edit_password = "";
  edit_database = cfg.database;
  edit_role = n.role;
}

abbrev pub form_patch : EditForm → Patch
form_patch s = record {
  name = some s.edit_name;
  host = some s.edit_host;
  port = some s.edit_port;
  user = some s.edit_user;
  database = some s.edit_database;
  cluster_type = none;
  role = some s.edit_role;
  password = some s.edit_password;
  source = none;
  alert_threshold_sec = none;
}

-- The form is closed, and what is given to `onUpdateNode` is the node's id and the patch.
unfoldable pub save_edit : Option Node → EditForm → EditForm × Option (String × Patch)
save_edit none s = (s, none)
save_edit (some n) s = (record s { is_editing = false }, some (n.id, form_patch s))

unfoldable pub cancel_edit : EditForm → EditForm
cancel_edit s = record s { is_editing = false }

-- `onUpdateNode` of the shell: the node is changed in the selected cluster.
unfoldable pub on_update_node :
    (selected_cluster_id : String) → Option (String × Patch) → Option Edit
on_update_node cluster_id none = none
on_update_node cluster_id (some (node_id, patch)) =
    if cluster_id == "" then none else some (update_cluster_node cluster_id node_id patch)
