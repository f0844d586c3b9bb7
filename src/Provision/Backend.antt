-- ===== src/Provision/Backend.antt =====
-- The requests of frontend/src/App.tsx, `loadProjectsFromBackend` to `listProvisionTasks`, as functions of
-- what the backend answers.
use learn_pg.Prelude.{
  ℕ, Bool, true, false, Option, none, some, List, [], map, String, get_or, if◌then◌else◌, ◌==◌,
  string_eq, ◌++ₛ◌, show,
}
use learn_pg.Workspace.Types.{Project}
use learn_pg.Workspace.Migrate.{StoredProject, migrate_workspace_projects}
use learn_pg.Workspace.Templates.{Template, single, physical_replication, logical_replication}

-- How a request ends: `fetch` or `res.json()` throws, the status is not a success, or the body is read.
pub data Reply {ℓ} (A : Type ℓ) : Type ℓ where
  rejected : Reply A
  refused : (status : ℕ) → Reply A
  replied : A → Reply A

-- `t || d` on a text that may be missing.
abbrev pub text_or : Option String → String → String
text_or none d = d
text_or (some t) d = if t == "" then d else t

-- A text that is there and not empty.
abbrev pub is_given : Option String → Bool
is_given none = false
is_given (some t) = if t == "" then false else true

pub record ProjectsBody : Type 0 where
  pub success : Bool
  pub projects : Option (List StoredProject)

unfoldable pub load_projects_from_backend : Reply ProjectsBody → Option (List Project)
load_projects_from_backend rejected = none
load_projects_from_backend (refused status) = none
load_projects_from_backend (replied b) =
    if b.success
    then elim b.projects [ none ↦ none | some ps ↦ some (migrate_workspace_projects ps) ]
    else none

-- The body of the answer is not read.
unfoldable pub save_projects_to_backend : Reply (Unit {0}) → Bool
save_projects_to_backend (replied b) = true
save_projects_to_backend _ = false

abbrev pub endpoint : Template → String
endpoint single = "/api/provision/single"
endpoint physical_replication = "/api/provision/physical"
endpoint logical_replication = "/api/provision/logical"

pub record ProvisionBody : Type 0 where
  pub success : Bool
  pub task_id : Option String

pub record Provisioned : Type 0 where
  pub ok : Bool
  pub task_id : Option String
  pub error : Option String

unfoldable pub provision_cluster_by_template : Reply ProvisionBody → Provisioned
provision_cluster_by_template rejected = record {
  ok = false;
  task_id = none;
  error = some "network error";
}
provision_cluster_by_template (refused status) = record {
  ok = false;
  task_id = none;
  error = some ("HTTP " ++ₛ show status);
}
provision_cluster_by_template (replied b) = record {
  ok = b.success;
  task_id = b.task_id;
  error = if b.success then none else some "provision failed";
}

-- A task as the backend sends it.
pub record TaskBody : Type 0 where
  pub task_id : Option String
  pub status : Option String
  pub progress : Option ℕ
  pub message : Option String
  pub started_at : Option ℕ
  pub finished_at : Option ℕ
  pub project_id : Option String
  pub cluster_id : Option String

-- What `getProvisionTask` gives.
pub record TaskState : Type 0 where
  pub status : String
  pub progress : ℕ
  pub message : Option String
  pub started_at : Option ℕ
  pub finished_at : Option ℕ

abbrev pub task_state : TaskBody → TaskState
task_state t = record {
  status = text_or t.status "unknown";
  progress = get_or t.progress 0;
  message = t.message;
  started_at = t.started_at;
  finished_at = t.finished_at;
}

-- `success` and `task` of the answer.
unfoldable pub get_provision_task : Reply (Bool × Option TaskBody) → Option TaskState
get_provision_task rejected = none
get_provision_task (refused status) = none
get_provision_task (replied (success, task)) =
    if success then elim task [ none ↦ none | some t ↦ some (task_state t) ] else none

-- An entry of the list of recent tasks.
pub record RecentTask : Type 0 where
  pub task_id : String
  pub status : String
  pub progress : ℕ
  pub message : Option String
  pub started_at : Option ℕ
  pub finished_at : Option ℕ
  pub project_id : Option String
  pub cluster_id : Option String

abbrev pub recent_task : TaskBody → RecentTask
recent_task t = record {
  task_id = text_or t.task_id "-";
  status = text_or t.status "unknown";
  progress = get_or t.progress 0;
  message = t.message;
  started_at = t.started_at;
  finished_at = t.finished_at;
  project_id = t.project_id;
  cluster_id = t.cluster_id;
}

-- `success` and `tasks` of the answer; `tasks` may not be an array.
unfoldable pub list_provision_tasks : Reply (Bool × Option (List TaskBody)) → List RecentTask
list_provision_tasks rejected = []
list_provision_tasks (refused status) = []
list_provision_tasks (replied (success, tasks)) =
    if success then map recent_task (get_or tasks []) else []
