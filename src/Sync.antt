-- ===== src/Sync.antt =====
-- The workspace of `App` in frontend/src/App.tsx and its copy at the backend: the load when the page is
-- opened, the delayed save, and the reload. An effect runs as part of the step that changes what it
-- depends on; `sent` is every list of projects handed to `saveProjectsToBackend` by the delayed save, the
-- latest first.
pub mod Saves
mod Tests
use learn_pg.Prelude.{
  Bool, true, false, Option, none, some, List, [], ◌∷◌, String, head?, is_some, find, if◌then◌else◌,
  ◌==◌, string_eq,
}
use learn_pg.Workspace.Types.{Cluster, Project, Workspace, Settings}
use learn_pg.Workspace.Edits.{Action, edits, act, selected_project}
use learn_pg.Provision.Backend.{
  Reply, ProjectsBody, load_projects_from_backend, save_projects_to_backend,
}
use learn_pg.Provision.Create.{first_cluster_id, clusters_of}

pub record Sync : Type 0 where
  pub workspace : Workspace
  pub workspace_bootstrapped : Bool
  pub workspace_sync_error : String
  pub save_timer : Bool
  pub sent : List (List Project)

unfoldable pub opened : Sync
opened = record {
  workspace = record { projects = []; selected_project_id = ""; selected_cluster_id = "" };
  workspace_bootstrapped = false;
  workspace_sync_error = "";
  save_timer = false;
  sent = [];
}

-- The effect on `[projects, workspaceBootstrapped]`: an earlier timer is cleared, and a new one is set
-- once the workspace has been loaded.
unfoldable pub schedule_save : Sync → Sync
schedule_save s = record s { save_timer = s.workspace_bootstrapped }

abbrev pub take_first : List Project → Workspace → Workspace
take_first [] w = record w { projects = [] }
take_first (p ∷ ps) w = record {
  projects = p ∷ ps;
  selected_project_id = p.id;
  selected_cluster_id = first_cluster_id p.clusters;
}

-- The load when the page is opened has ended.
abbrev pub take_loaded : Option (List Project) → Sync → Sync
take_loaded none s =
    schedule_save
      (record s { workspace_sync_error = "工作区后端不可用，当前使用本地缓存。"; workspace_bootstrapped = true })
take_loaded (some remote) s = schedule_save (record s {
  workspace = take_first remote s.workspace;
  workspace_sync_error = "";
  workspace_bootstrapped = true;
})

-- `selectedProjectId || remote[0]?.id || ''`
abbrev pub current_project_id : String → List Project → String
current_project_id selected [] = selected
current_project_id selected (p ∷ ps) = if selected == "" then p.id else selected

-- `remote.find((x) => x.id === id) ?? remote[0]`
abbrev pub found_or_first : Option Project → List Project → Option Project
found_or_first none ps = head? ps
found_or_first (some p) ps = some p

abbrev pub take_reloaded : List Project → Workspace → Workspace
take_reloaded remote w =
    let id : String = current_project_id w.selected_project_id remote in
    record {
      projects = remote;
      selected_project_id = id;
      selected_cluster_id =
          first_cluster_id (clusters_of (found_or_first (find (λ x. x.id == id) remote) remote));
    }

-- `reloadWorkspaceFromBackend`, with what the backend has answered.
abbrev pub reload : Option (List Project) → Sync → Sync
reload none s = s
reload (some remote) s = schedule_save (record s { workspace = take_reloaded remote s.workspace })

-- The timer's callback hands the projects over.
abbrev pub sent_now : Sync → Sync
sent_now s = record s { save_timer = false; sent = s.workspace.projects ∷ s.sent }

abbrev pub fire_save : Sync → Sync
fire_save s = if s.save_timer then sent_now s else s

pub data Event : Type 0 where
  loads reloads : Reply ProjectsBody → Event
  acts : Action → Event
  fires : Event
  saved : Reply (Unit {0}) → Event

-- An edit inside the selected project does nothing where there is none.
abbrev pub sets_projects : Action → Workspace → Bool
sets_projects (edits e) w = is_some (selected_project w)
sets_projects _ w = true

unfoldable pub step : Settings → Event → Sync → Sync
unfolding schedule_save
step cfg (loads reply) s = take_loaded (load_projects_from_backend reply) s
step cfg (reloads reply) s = reload (load_projects_from_backend reply) s
step cfg (acts a) s =
    if sets_projects a s.workspace
    then schedule_save (record s { workspace = act cfg a s.workspace })
    else s
step cfg fires s = fire_save s
step cfg (saved reply) s = record s {
  workspace_sync_error = if save_projects_to_backend reply then "" else "工作区保存失败，变更仅保存在本地缓存。";
}

unfoldable pub run : Settings → List Event → Sync → Sync
unfolding step
run cfg [] s = s
run cfg (e ∷ es) s = run cfg es (step cfg e s)
