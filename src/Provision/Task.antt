-- ===== src/Provision/Task.antt =====
-- The task bar of `App` in frontend/src/App.tsx: the provision task, its polling, the recent tasks, and
-- the copy of the task in localStorage. `JSON` is a parameter. An effect runs as part of the step that
-- changes what it depends on; requests on their way are kept in order, with the task that each is about.
use learn_pg.Prelude.{
  ℕ, zero, suc, Bool, true, false, ◌&&◌, ◌||◌, not, Option, none, some, List, [], ◌∷◌, ◌++◌, String,
  head?, get_or, if◌then◌else◌, ◌==◌, string_eq, ◌++ₛ◌, show, ◌≡◌, ◌≢◌,
}
use learn_pg.Provision.Backend.{
  Reply, TaskBody, TaskState, RecentTask, ProvisionBody, Provisioned, text_or, is_given,
  get_provision_task, list_provision_tasks, save_projects_to_backend, provision_cluster_by_template,
}

pub record ProvisionTask : Type 0 where
  pub task_id : String
  pub status : String
  pub progress : ℕ
  pub message : String
  pub started_at : Option ℕ
  pub finished_at : Option ℕ
  pub project_id : Option String

-- The object that is written for a task: a member that is `undefined` is left out.
abbrev pub written : ProvisionTask → TaskBody
written t = record {
  task_id = some t.task_id;
  status = some t.status;
  progress = some t.progress;
  message = some t.message;
  started_at = t.started_at;
  finished_at = t.finished_at;
  project_id = t.project_id;
  cluster_id = none;
}

-- `JSON.stringify` and `JSON.parse` on tasks. `parse` gives nothing where it throws or gives `null`.
-- The laws are those of the documentation: what is written is read back, and is not the empty text.
pub record TaskJson : Type 0 where
  pub stringify : ProvisionTask → String
  pub parse : String → Option TaskBody
  pub parse-stringify : (t : ProvisionTask) → parse (stringify t) ≡ some (written t)
  pub stringify_ne : (t : ProvisionTask) → stringify t ≢ ""

abbrev pub cached_task : TaskBody → ProvisionTask
cached_task t = record {
  task_id = get_or t.task_id "";
  status = get_or t.status "";
  progress = get_or t.progress 0;
  message = get_or t.message "";
  started_at = t.started_at;
  finished_at = t.finished_at;
  project_id = t.project_id;
}

abbrev pub checked_task : Option TaskBody → Option ProvisionTask
checked_task none = none
checked_task (some t) =
    if is_given t.task_id && is_given t.status then some (cached_task t) else none

-- `loadProvisionTaskCache`, on what localStorage has under the task's key.
unfoldable pub load_provision_task_cache : TaskJson → Option String → Option ProvisionTask
load_provision_task_cache j none = none
load_provision_task_cache j (some raw) = if raw == "" then none else checked_task (j.parse raw)

pub record TaskBar : Type 0 where
  pub task : Option ProvisionTask
  pub recent_tasks : List RecentTask
  pub show_recent_tasks : Bool
  pub recent_task_filter : String
  pub asked : List String
  pub storage : Option String

-- The effect on the task: it is cached, and a failure opens the list of failed tasks.
unfoldable pub save_task : TaskJson → Option ProvisionTask → TaskBar → TaskBar
save_task j none s = record s { storage = none }
save_task j (some t) s =
    let saved : TaskBar = record s { storage = some (j.stringify t) } in
    if t.status == "failed"
    then record saved { show_recent_tasks = true; recent_task_filter = "failed" }
    else saved

-- `setProvisionTask(t)`, and then the effect.
unfoldable pub set_task : TaskJson → Option ProvisionTask → TaskBar → TaskBar
unfolding save_task
set_task j t s = save_task j t (record s { task = t })

unfoldable pub mount : TaskJson → Option String → TaskBar
unfolding save_task load_provision_task_cache
mount j storage = save_task j (load_provision_task_cache j storage) (record {
  task = load_provision_task_cache j storage;
  recent_tasks = [];
  show_recent_tasks = false;
  recent_task_filter = "all";
  asked = [];
  storage = storage;
})

-- `t || d` on a time.
abbrev pub time_or : Option ℕ → Option ℕ → Option ℕ
time_or none d = d
time_or (some zero) d = d
time_or (some (suc n)) d = some (suc n)

unfoldable pub merged : TaskState → ProvisionTask → ProvisionTask
merged task prev = record prev {
  status = task.status;
  progress = task.progress;
  message = text_or task.message prev.message;
  started_at = time_or task.started_at prev.started_at;
  finished_at = task.finished_at;
}

abbrev pub is_over : ProvisionTask → Bool
is_over t = t.status == "success" || t.status == "failed"

-- What is asked for a task by its interval, and by `refreshProvisionTask`.
abbrev pub poll : Option ProvisionTask → List String
poll none = []
poll (some t) = if t.task_id == "" || is_over t then [] else t.task_id ∷ []

abbrev pub refresh : Option ProvisionTask → List String
refresh none = []
refresh (some t) = if t.task_id == "" then [] else t.task_id ∷ []

abbrev pub merge_answer : TaskJson → Option TaskState → Option ProvisionTask → TaskBar → TaskBar
merge_answer j none prev s = s
merge_answer j (some task) none s = s
merge_answer j (some task) (some prev) s = set_task j (some (merged task prev)) s

-- An answer settles the first request on its way.
abbrev pub settle_first : TaskJson → Option TaskState → List String → TaskBar → TaskBar
settle_first j answer [] s = s
settle_first j answer (id ∷ rest) s = merge_answer j answer s.task (record s { asked = rest })

abbrev pub running_task : (task_id : String) → (now : ℕ) → (project_id : String) → ProvisionTask
running_task task_id now project_id = record {
  task_id = task_id;
  status = "running";
  progress = 5;
  message = "集群创建中...";
  started_at = some now;
  finished_at = none;
  project_id = some project_id;
}

abbrev pub failed_task : (now : ℕ) → (project_id : String) → (error : Option String) → ProvisionTask
failed_task now project_id error = record {
  task_id = "local-" ++ₛ show now;
  status = "failed";
  progress = 100;
  message = "集群创建失败：" ++ₛ text_or error "unknown error";
  started_at = some now;
  finished_at = some now;
  project_id = some project_id;
}

-- The task that `handleTemplateConfirm` shows, of the backend's answer at the time `now`.
unfoldable pub task_of_answer :
    (now : ℕ) → (project_id : String) → Provisioned → Option ProvisionTask
task_of_answer now project_id p =
    if is_given p.task_id
    then some (running_task (get_or p.task_id "") now project_id)
    else if p.ok
    then none
    else some (failed_task now project_id p.error)

abbrev pub recovered_task : RecentTask → ProvisionTask
recovered_task t = record {
  task_id = t.task_id;
  status = t.status;
  progress = t.progress;
  message = text_or t.message "任务恢复中...";
  started_at = t.started_at;
  finished_at = t.finished_at;
  project_id = none;
}

abbrev pub recover : TaskJson → Option RecentTask → TaskBar → TaskBar
recover j none s = s
recover j (some t) s = if t.status == "running" then set_task j (some (recovered_task t)) s else s

-- The timer of a task that has succeeded takes it off.
abbrev pub expire : TaskJson → Option ProvisionTask → TaskBar → TaskBar
expire j none s = s
expire j (some t) s = if t.status == "success" then set_task j none s else s

-- The seed of a creation fails, or the backend is asked for a cluster.
abbrev pub provision_after : Bool → Reply ProvisionBody → Provisioned
provision_after true answer = provision_cluster_by_template answer
provision_after false answer = record { ok = false; task_id = none; error = none }

abbrev pub show_created : TaskJson → Option ProvisionTask → TaskBar → TaskBar
show_created j none s = s
show_created j (some t) s = set_task j (some t) s

pub data Step : Type 0 where
  polls refreshes dismisses expires toggles_recent : Step
  answered : Reply (Bool × Option TaskBody) → Step
  created : (now : ℕ) → (project_id : String) → Reply (Unit {0}) → Reply ProvisionBody → Step
  recovers listed : Reply (Bool × Option (List TaskBody)) → Step
  filters : String → Step

unfoldable pub step : TaskJson → Step → TaskBar → TaskBar
unfolding set_task task_of_answer get_provision_task list_provision_tasks save_projects_to_backend
    provision_cluster_by_template
step j polls s = record s { asked = s.asked ++ poll s.task }
step j refreshes s = record s { asked = s.asked ++ refresh s.task }
step j dismisses s = set_task j none s
step j expires s = expire j s.task s
step j toggles_recent s = record s { show_recent_tasks = not s.show_recent_tasks }
step j (answered reply) s = settle_first j (get_provision_task reply) s.asked s
step j (created now project_id seed reply) s =
    show_created j
      (task_of_answer now project_id (provision_after (save_projects_to_backend seed) reply)) s
step j (recovers reply) s = recover j (head? (list_provision_tasks reply)) s
step j (listed reply) s = record s { recent_tasks = list_provision_tasks reply }
step j (filters f) s = record s { recent_task_filter = f }

unfoldable pub run : TaskJson → List Step → TaskBar → TaskBar
unfolding step
run j [] s = s
run j (a ∷ rest) s = run j rest (step j a s)
