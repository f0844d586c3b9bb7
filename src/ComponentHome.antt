-- ===== src/ComponentHome.antt =====
-- The state of frontend/src/components/workspace/ComponentHomeView.tsx: its form for a component and its
-- tree of components, clusters and nodes. `expanded` is a JavaScript object by ids; a component and a
-- cluster with one id share an entry, as there.
pub mod Toggles
mod Tests
use learn_pg.Prelude.{
  Bool, true, false, not, Option, none, some, List, [], ◌∷◌, String, filter, any, get_or,
  if◌then◌else◌, ◌==◌, string_eq,
}
use learn_pg.Prelude.Map.{get, set}
use learn_pg.Workspace.Types.{Cluster, Component, Project}

pub record ComponentForm : Type 0 where
  pub editing_component_id : String
  pub editing_component_name : String
  pub editing_component_type : String

-- `componentType` is the value of the type's name, which the form takes over as a string.
unfoldable pub start_edit_component : (id name component_type : String) → ComponentForm
start_edit_component id name component_type = record {
  editing_component_id = id;
  editing_component_name = name;
  editing_component_type = component_type;
}

-- What is given to `onUpdateComponent`: the id, the name and the type.
unfoldable pub save_edit_component :
    ComponentForm → ComponentForm × Option (String × String × String)
save_edit_component s = if s.editing_component_id == "" then (s, none) else (
  record s { editing_component_id = "" },
  some (s.editing_component_id, s.editing_component_name, s.editing_component_type),
)

unfoldable pub cancel_edit_component : ComponentForm → ComponentForm
cancel_edit_component s = record s { editing_component_id = "" }

abbrev pub TreeState : Type 0
TreeState = List (String × Bool)

unfoldable pub open_all : {A : Type 0} → (A → String) → List A → TreeState → TreeState
open_all id_of [] e = e
open_all id_of (x ∷ xs) e = open_all id_of xs (set (id_of x) true e)

-- The effect on the project's id.
unfoldable pub expand_project : Option Project → TreeState → TreeState
unfolding open_all
expand_project none e = e
expand_project (some p) e = open_all (λ c. c.id) p.clusters (open_all (λ c. c.id) p.components [])

unfoldable pub toggle : String → TreeState → TreeState
toggle id e = set id (not (get_or (get id e) false)) e

abbrev pub is_not_false : Option Bool → Bool
is_not_false none = true
is_not_false (some b) = b

-- `expanded[id] !== false`
unfoldable pub is_open : String → TreeState → Bool
is_open id e = is_not_false (get id e)

unfoldable pub linked_clusters : Project → Component → List Cluster
linked_clusters p comp = filter (λ c. any (λ x. x == c.id) comp.linked_cluster_ids) p.clusters

-- The clusters whose nodes the tree shows under a component.
unfoldable pub open_clusters : TreeState → Project → Component → List Cluster
unfolding is_open linked_clusters
open_clusters e p comp =
    if is_open comp.id e then filter (λ c. is_open c.id e) (linked_clusters p comp) else []
