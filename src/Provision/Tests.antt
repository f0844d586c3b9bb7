-- ===== src/Provision/Tests.antt =====
-- Tests of provisioning.
mod Codec
use learn_pg.Prelude.{
  ℕ, ◌≡◌, refl, true, false, Option, none, some, List, [], ◌∷◌, map, String, show,
}
use learn_pg.Workspace.Types.{Project, Workspace, Settings}
use learn_pg.Workspace.Edits.{Edit, create_cluster, create_component, remaining, selected_project}
use learn_pg.Workspace.Templates.{
  physical_replication, Params, build_project, build_components, component_if,
  resolve_component_name, replace_all, trim_start, trim_end,
}
use learn_pg.Provision.Backend.{
  Reply, rejected, refused, replied, TaskBody, ProvisionBody, get_provision_task,
  list_provision_tasks, provision_cluster_by_template, save_projects_to_backend,
}
use learn_pg.Provision.Task.{
  ProvisionTask, TaskBar, Step, polls, dismisses, created, answered, recovers, mount, run, merged,
  step, set_task, save_task, task_of_answer, running_task, failed_task, load_provision_task_cache,
}
use learn_pg.Provision.Cache.{run-cached}
use learn_pg.Provision.Create.{
  Shell, chosen_name, begin_create, edit_shell, settle_create, confirm_preview, preview_project,
}
use learn_pg.Provision.Create.Rollback.{
  ShowsFailure, settle_create-failed, selected_project-confirm_preview,
}
use learn_pg.Provision.Tests.Codec.{codec}

abbrev body : String → TaskBody
body status = record {
  task_id = some "t";
  status = some status;
  progress = some 40;
  message = none;
  started_at = some 7;
  finished_at = none;
  project_id = none;
  cluster_id = none;
}

abbrev made : ProvisionBody
made = record { success = true; task_id = some "u" }

-- A running task is recovered, polled and replaced by one of a new project.
abbrev work : List Step
work =
    recovers (replied (true, some (body "running" ∷ [])))
    ∷ polls
    ∷ created 9 "p" (replied tt) (replied made)
    ∷ answered (replied (true, some (body "success")))
    ∷ []

run-cached_example :
    load_provision_task_cache codec (run codec work (mount codec none)).storage
    ≡ (run codec work (mount codec none)).task
run-cached_example = run-cached codec none work

abbrev shown_task : ProvisionTask
shown_task = record {
  task_id = "t";
  status = "running";
  progress = 40;
  message = "m";
  started_at = some 7;
  finished_at = none;
  project_id = none;
}

abbrev bar : TaskBar
bar = record {
  task = some shown_task;
  recent_tasks = [];
  show_recent_tasks = false;
  recent_task_filter = "all";
  asked = [];
  storage = none;
}

-- A poll of the shown task is on its way while a new one is made: its answer marks the new one as done.
stale_answer :
    (run codec
      (polls
        ∷ created 9 "p" (replied tt) (replied made)
        ∷ answered (replied (true, some (body "success")))
        ∷ [])
      bar).task
    ≡ some record {
      task_id = "u";
      status = "success";
      progress = 40;
      message = "集群创建中...";
      started_at = some 7;
      finished_at = none;
      project_id = some "p";
    }
unfolding run step set_task save_task merged task_of_answer get_provision_task
    save_projects_to_backend provision_cluster_by_template
stale_answer = refl

abbrev shell : Shell
shell = record {
  workspace = record {
    projects = record { id = "o"; name = "o"; clusters = []; components = [] } ∷ [];
    selected_project_id = "o";
    selected_cluster_id = "";
  };
  bar = bar;
  highlighted_component_ids = [];
  current_view = "project_home";
  show_template_dialog = true;
}

abbrev settings : Settings
settings = record { host = "localhost"; port = 5_432; user = "postgres"; database = "postgres" }

abbrev meanwhile : List Edit
meanwhile = create_cluster "c" "n" ∷ create_component "m" ∷ []

settle_create-failed_example :
    ((settle_create codec 9 "p"
        (replied tt)
        (refused 503)
        rejected
        (edit_shell settings meanwhile (begin_create "p" "mine" shell))).workspace.projects
      ≡ shell.workspace.projects)
    × ShowsFailure
        (failed_task 9 "p" (some "HTTP 503"))
        (settle_create codec 9 "p"
          (replied tt)
          (refused 503)
          rejected
          (edit_shell settings meanwhile (begin_create "p" "mine" shell))).bar
unfolding save_projects_to_backend provision_cluster_by_template show
settle_create-failed_example =
    settle_create-failed settings codec 9 "p" "mine" (replied tt) (refused 503) rejected meanwhile
      shell refl refl

abbrev params : Params
params = record {
  node_count = 2;
  alert_threshold_sec = 30;
  create_collector = true;
  create_analyzer = false;
  create_storage = false;
  component_name_pattern = "{project}";
}

-- The name is trimmed.
name_of_preview : chosen_name " x " [] ≡ "x"
unfolding chosen_name trim_start trim_end
name_of_preview = refl
