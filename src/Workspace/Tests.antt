-- ===== src/Workspace/Tests.antt =====
-- Tests of the workspace.
use learn_pg.Prelude.{
  ℕ, true, ◌≡◌, refl, false, none, some, List, [], ◌∷◌, map, String, string_eq, All,
}
use learn_pg.Workspace.Types.{Cluster, physical, Project, Workspace, Settings}
use learn_pg.Workspace.Edits.{
  create_cluster, remove_cluster, remove_node, create_component, toggle_link, Action,
  create_project, edits, act, run, selected_project, toggled, remaining, edit_project,
  make_default_node, default_cluster, default_component, reselect, drop_node,
}
use learn_pg.Workspace.Migrate.{
  negsuc, StoredProject, HasThresholds, stored_project, migrate_workspace_projects,
  migrate_workspace_projects_lem,
}
use learn_pg.Workspace.Preservation.{HasNodes, run-HasNodes, remaining-edits}
use learn_pg.Workspace.Templates.{
  physical_replication, Params, build_project, build_components, component_if,
  resolve_component_name, replace_all, trim_start, trim_end,
}
use learn_pg.Workspace.Templates.Shape.{IsShaped, LinksOnly, build_project_lem}
use learn_pg.Workspace.Selection.{
  Selection, chosen, complete_selection, selected_node_config, node_in, clusters_in,
}
use learn_pg.Workspace.Selection.Settles.{complete_selection-again}
use learn_pg.Workspace.Links.{links_to, links_to-toggled, components-remove_cluster}

abbrev settings : Settings
settings = record { host = "localhost"; port = 5_432; user = "postgres"; database = "postgres" }

abbrev new : Workspace
new = record { projects = []; selected_project_id = ""; selected_cluster_id = "" }

abbrev work : List Action
work =
    create_project "p"
    ∷ edits (create_cluster "c" "n")
    ∷ edits (create_component "m")
    ∷ edits (toggle_link "m" "c")
    ∷ edits (remove_node "c" "n")
    ∷ []

-- The only node of a cluster is kept, and removing the cluster leaves the link to it.
work_done :
    (map (λ p. map (λ c. map (λ n. n.id) c.nodes) p.clusters) (run settings work new).projects
      ≡ (("n" ∷ []) ∷ []) ∷ [])
    × (map
          (λ p. map (λ m. m.linked_cluster_ids) p.components)
          (act settings (edits (remove_cluster "c")) (run settings work new)).projects
        ≡ (("c" ∷ []) ∷ []) ∷ [])
unfolding run act selected_project edit_project make_default_node default_cluster default_component
    toggled drop_node reselect
work_done = (refl, refl)

run-HasNodes_example : All HasNodes (run settings work new).projects
run-HasNodes_example = run-HasNodes settings work new tt

abbrev project : String → Project
project id = record { id = id; name = id; clusters = []; components = [] }

abbrev two : Workspace
two = record {
  projects = project "p" ∷ project "q" ∷ [];
  selected_project_id = "q";
  selected_cluster_id = "";
}

remaining-edits_example :
    (remaining "q" (act settings (edits (create_component "m")) two).projects
      ≡ remaining "q" two.projects)
    × (map (λ p. p.id) (act settings (edits (create_component "m")) two).projects ≡ "p" ∷ "q" ∷ [])
unfolding selected_project
remaining-edits_example =
    remaining-edits settings (create_component "m") two {sel = project "q"} refl

components-remove_cluster_example :
    map
      (λ p. p.components)
      (act settings (edits (remove_cluster "c")) (run settings work new)).projects
    ≡ map (λ p. p.components) (run settings work new).projects
components-remove_cluster_example = components-remove_cluster settings "c" (run settings work new)

abbrev saved : List StoredProject
saved =
    record {
      id = "p";
      name = "p";
      clusters = some (
          record {
            id = "c";
            name = "c";
            replication_type = physical;
            alert_threshold_sec = some (negsuc 4);
            nodes = none;
          }
          ∷ []);
      components = none;
    }
    ∷ []

migrate_workspace_projects_lem_example :
    All HasThresholds (migrate_workspace_projects saved)
    × (migrate_workspace_projects (map stored_project (migrate_workspace_projects saved))
        ≡ migrate_workspace_projects saved)
migrate_workspace_projects_lem_example = migrate_workspace_projects_lem saved

abbrev params : Params
params = record {
  node_count = 3;
  alert_threshold_sec = 30;
  create_collector = true;
  create_analyzer = true;
  create_storage = false;
  component_name_pattern = " {project}-{type} ";
}

abbrev ids : ℕ → String
ids k = "id"

names_of_template :
    map (λ c. c.name) (build_project settings physical_replication ids "shop" params).components
    ≡ "shop-collector" ∷ "shop-analyzer" ∷ []
unfolding build_project build_components component_if resolve_component_name replace_all trim_start
    trim_end
names_of_template = refl

build_project_lem_example :
    (c : Cluster) × ((build_project settings physical_replication ids "shop" params).clusters
      ≡ c ∷ [])
    × IsShaped physical_replication 3 c
    × All
        (LinksOnly c.id)
        (build_project settings physical_replication ids "shop" params).components
build_project_lem_example = build_project_lem settings physical_replication ids "shop" params

abbrev in_p : Selection
in_p = record { project_id = ""; cluster_id = "gone"; node_id = "" }

complete_selection-again_example :
    (complete_selection
        (run settings work new).projects
        (complete_selection (run settings work new).projects in_p)
      ≡ complete_selection (run settings work new).projects in_p)
    × (selected_node_config
          (run settings work new).projects
          (complete_selection (run settings work new).projects in_p)
        ≡ node_in
            (chosen
              (λ c. c.id)
              "gone"
              (clusters_in (chosen (λ p. p.id) "" (run settings work new).projects)))
            (complete_selection (run settings work new).projects in_p).node_id)
complete_selection-again_example = complete_selection-again (run settings work new).projects in_p

selected_of_work :
    complete_selection (run settings work new).projects in_p
    ≡ record { project_id = "p"; cluster_id = "c"; node_id = "n" }
unfolding complete_selection chosen run act selected_project edit_project make_default_node
    default_cluster default_component toggled drop_node reselect
selected_of_work = refl

links_to-toggled_example : links_to "d" (toggled "c" ("c" ∷ "d" ∷ [])) ≡ true
links_to-toggled_example = links_to-toggled "c" "d" ("c" ∷ "d" ∷ [])
