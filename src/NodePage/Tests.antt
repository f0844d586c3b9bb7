-- ===== src/NodePage/Tests.antt =====
-- Tests of the node's page.
use learn_pg.Prelude.{◌≡◌, refl, false, none, some, [], ◌∷◌, inl, inr, string_eq, beq_ne→ne}
use learn_pg.Workspace.Types.{Node, Cluster, Project, Settings, physical, manual}
use learn_pg.ClusterHome.Editing.{Forms, start_edit_node, save_edit_node}
use learn_pg.NodePage.{EditForm, start_edit, save_edit, on_update_node}
use learn_pg.NodePage.Saving.{edited_by, reconnected_in, edit_project-untouched}

abbrev store : Settings
store = record { host = "pgv-postgres"; port = 5_432; user = "postgres"; database = "postgres" }

abbrev node : Node
node = record {
  id = "n";
  name = "replica";
  host = "10.0.0.7";
  port = 5_433;
  user = "app";
  database = "sales";
  cluster_type = physical;
  role = "standby";
  password = none;
  source = some manual;
}

abbrev form : EditForm
form = record {
  is_editing = false;
  edit_name = "";
  edit_host = "";
  edit_port = 5_432;
  edit_user = "";
  edit_password = "";
  edit_database = "";
  edit_role = "";
}

abbrev forms : Forms
forms = record {
  editing_cluster_id = "";
  editing_cluster_name = "";
  editing_cluster_threshold = 30;
  editing_node_id = "";
  editing_node_data = record {
    name = "";
    host = "";
    port = 5_432;
    user = "";
    database = "";
    role = "standby";
  };
}

abbrev other : Node
other = record node { id = "m"; name = "primary"; role = "primary" }

abbrev cluster : Cluster
cluster = record {
  id = "c";
  name = "sales";
  replication_type = physical;
  alert_threshold_sec = none;
  nodes = other ∷ node ∷ [];
}

abbrev project : Project
project = record {
  id = "p";
  name = "shop";
  clusters = record cluster { id = "d" } ∷ cluster ∷ [];
  components = [];
}

edit_project-untouched_example :
    (edited_by store (save_edit_node (some cluster) (start_edit_node node forms)).1 project
      ≡ project)
    × (edited_by store
          (on_update_node "c" (save_edit (some node) (start_edit store (some node) form)).1)
          project
        ≡ reconnected_in store "c" "n" project)
edit_project-untouched_example =
    edit_project-untouched store node cluster project forms form (beq_ne→ne "n" "" refl)
      (beq_ne→ne "c" "" refl) (inl refl, (inr refl, tt)) (inl refl, (inr refl, tt))
