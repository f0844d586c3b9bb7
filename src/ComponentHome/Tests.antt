-- ===== src/ComponentHome/Tests.antt =====
-- Tests of the component page.
use learn_pg.Prelude.{◌≡◌, refl, true, none, some, [], ◌∷◌}
use learn_pg.Prelude.Map.{get, set}
use learn_pg.Workspace.Types.{Cluster, Component, Project, collector, physical}
use learn_pg.ComponentHome.{
  start_edit_component, save_edit_component, expand_project, is_open, open_clusters, toggle,
}
use learn_pg.ComponentHome.Toggles.{toggles, is_open-toggles}

abbrev collector_of_c : Component
collector_of_c = record {
  id = "k";
  name = "collector";
  component_type = collector;
  linked_cluster_ids = "c" ∷ "gone" ∷ [];
}

abbrev cluster_c : Cluster
cluster_c = record {
  id = "c";
  name = "sales";
  replication_type = physical;
  alert_threshold_sec = none;
  nodes = [];
}

abbrev page_project : Project
page_project = record {
  id = "p";
  name = "shop";
  clusters = cluster_c ∷ record cluster_c { id = "d" } ∷ [];
  components = collector_of_c ∷ [];
}

-- A link to a cluster that the project no longer has shows nothing.
shown_links :
    open_clusters (expand_project (some page_project) []) page_project collector_of_c
    ≡ cluster_c ∷ []
unfolding open_clusters expand_project toggle get set
shown_links = refl

closed_cluster :
    open_clusters
      (toggles ("c" ∷ []) (expand_project (some page_project) []))
      page_project
      collector_of_c
    ≡ []
unfolding open_clusters expand_project toggle get set
closed_cluster = refl

saved_once :
    save_edit_component (save_edit_component (start_edit_component "k" "new" "collector")).0
    ≡ (record (start_edit_component "k" "new" "collector") { editing_component_id = "" }, none)
unfolding start_edit_component save_edit_component
saved_once = refl

-- The row of a component that was added after the page was opened is open after the first click.
is_open-toggles_example :
    is_open "added" (toggles ("c" ∷ "added" ∷ []) (expand_project (some page_project) [])) ≡ true
is_open-toggles_example = is_open-toggles "added" ("c" ∷ "added" ∷ []) page_project []
