-- ===== src/Provision/Create.antt =====
-- `handleTemplateConfirm` of frontend/src/App.tsx. New ids and the time are arguments; a view is the text
-- that names it. The part before the first `await` is `begin_create`, the rest is `settle_create`; what the
-- user edits in between is a run of edits.
pub mod Rollback
use learn_pg.Prelude.{
  ℕ, ◌+◌, Bool, true, false, Option, none, some, List, [], ◌∷◌, ◌++◌, map, String, length, head?,
  find, if◌then◌else◌, ◌==◌, string_eq, ◌++ₛ◌, show,
}
use learn_pg.Workspace.Types.{Cluster, Project, Workspace, Settings}
use learn_pg.Workspace.Edits.{Edit, edits, Action, remaining, run}
use learn_pg.Workspace.Templates.{Template, Params, build_project, trim_start, trim_end}
use learn_pg.Provision.Backend.{
  Reply, ProjectsBody, ProvisionBody, Provisioned, text_or, is_given, load_projects_from_backend,
  save_projects_to_backend,
}
use learn_pg.Provision.Task.{TaskJson, TaskBar, created, step, provision_after}

pub record Shell : Type 0 where
  pub workspace : Workspace
  pub bar : TaskBar
  pub highlighted_component_ids : List String
  pub current_view : String
  pub show_template_dialog : Bool

-- `name.trim() || '项目 ' + (projects.length + 1)`
unfoldable pub chosen_name : String → List Project → String
chosen_name name ps = text_or (some (trim_end (trim_start name))) ("项目 " ++ₛ show (length ps + 1))

-- `p?.clusters[0]?.id ?? ''`
abbrev pub first_cluster_id : List Cluster → String
first_cluster_id [] = ""
first_cluster_id (c ∷ cs) = c.id

-- The project of a preview has an id of its own.
abbrev pub preview_project :
    Settings → Template → (ℕ → String) → (id name : String) → Params → Project
preview_project cfg t ids id name params = record (build_project cfg t ids name params) { id = id }

abbrev pub show_preview : Project → Shell → Shell
show_preview p s = record s {
  workspace = record {
    projects = s.workspace.projects ++ p ∷ [];
    selected_project_id = p.id;
    selected_cluster_id = first_cluster_id p.clusters;
  };
  highlighted_component_ids = map (λ c. c.id) p.components;
  current_view = "component_home";
  show_template_dialog = false;
}

-- The mode `preview`.
unfoldable pub confirm_preview :
    Settings → Template → (ℕ → String) → (id name : String) → Params → Shell → Shell
unfolding chosen_name
confirm_preview cfg t ids id name params s =
    show_preview (preview_project cfg t ids id (chosen_name name s.workspace.projects) params) s

-- The mode `create`, up to the first request.
unfoldable pub begin_create : (project_id name : String) → Shell → Shell
unfolding chosen_name
begin_create project_id name s = record s {
  workspace = record s.workspace {
    projects =
        s.workspace.projects
        ++ record {
          id = project_id;
          name = chosen_name name s.workspace.projects;
          clusters = [];
          components = [];
        }
          ∷ [];
    selected_project_id = project_id;
  };
  show_template_dialog = false;
}

-- What the user edits in the selected project while the requests are on their way.
unfoldable pub edit_shell : Settings → List Edit → Shell → Shell
edit_shell cfg es s = record s { workspace = run cfg (map edits es) s.workspace }

abbrev pub clusters_of : Option Project → List Cluster
clusters_of none = []
clusters_of (some p) = p.clusters

-- The workspace is taken over from the backend.
abbrev pub take_remote : (project_id : String) → Option (List Project) → Shell → Shell
take_remote project_id none s = s
take_remote project_id (some remote) s = record s {
  workspace = record {
    projects = remote;
    selected_project_id = project_id;
    selected_cluster_id = first_cluster_id (clusters_of (find (λ p. p.id == project_id) remote));
  };
  highlighted_component_ids = [];
  current_view = "cluster_home";
}

abbrev pub after_provision :
    (project_id : String) → Provisioned → Reply ProjectsBody → Shell → Shell
after_provision project_id p remote s =
    if p.ok
    then take_remote project_id (load_projects_from_backend remote) s
    else if is_given p.task_id
    then s
    else record s {
      workspace = record s.workspace { projects = remaining project_id s.workspace.projects };
    }

-- The rest of the mode `create`, with the answers to saving the projects, to provisioning and to loading
-- the projects.
unfoldable pub settle_create :
    TaskJson
    → (now : ℕ) → (project_id : String) → Reply (Unit {0})
    → Reply ProvisionBody
    → Reply ProjectsBody
    → Shell
    → Shell
settle_create j now project_id seed reply remote s =
    after_provision project_id (provision_after (save_projects_to_backend seed) reply) remote
      (record s { bar = step j (created now project_id seed reply) s.bar })
