-- ===== src/Provision/Cache.antt =====
-- What localStorage has of the provision task.
use learn_pg.Prelude.{
  ◌≡◌, refl, ap, sym, subst, ◌∙◌, Option, none, some, List, [], ◌∷◌, String, head?, ◌==◌, string_eq,
  beq-ne, Bool-cases, inl, inr, arith,
}
use learn_pg.Provision.Backend.{
  TaskState, RecentTask, get_provision_task, list_provision_tasks, Provisioned,
  save_projects_to_backend,
}
use learn_pg.Provision.Task.{
  ProvisionTask, TaskJson, TaskBar, load_provision_task_cache, save_task, set_task, mount, merged,
  provision_after, merge_answer, settle_first, task_of_answer, recover, recovered_task, expire,
  show_created, Step, polls, refreshes, dismisses, expires, toggles_recent, answered, created,
  recovers, listed, filters, step, run,
}
use learn_pg.Provision.Named.{
  IsNamed, AllNamed, HasStatus, FirstNamed, load_provision_task_cache-AllNamed,
  get_provision_task-HasStatus, list_provision_tasks-FirstNamed, task_of_answer-AllNamed,
}

-- A task with an id and a status that is cached is loaded as it was.
load-stringify :
    (j : TaskJson) (t : ProvisionTask)
    → IsNamed t
    → load_provision_task_cache j (some (j.stringify t)) ≡ some t
unfolding load_provision_task_cache
load-stringify j t h =
    rw (beq-ne (j.stringify t) "" (j.stringify_ne t), j.parse-stringify t, h.0, h.1) refl

-- The state of the task bar between two steps.
abbrev IsCached : TaskJson → TaskBar → Type 0
IsCached j s = AllNamed s.task × (load_provision_task_cache j s.storage ≡ s.task)

pub task-save_task :
    (j : TaskJson) (o : Option ProvisionTask) (s : TaskBar) → (save_task j o s).task ≡ s.task
unfolding save_task
task-save_task j none s = refl
task-save_task j (some t) s = ground arith

storage-save_task :
    (j : TaskJson) (t : ProvisionTask) (s : TaskBar)
    → (save_task j (some t) s).storage ≡ some (j.stringify t)
unfolding save_task
storage-save_task j t s = ground arith

load-save_task :
    (j : TaskJson) (o : Option ProvisionTask) (s : TaskBar)
    → AllNamed o
    → load_provision_task_cache j (save_task j o s).storage ≡ o
unfolding save_task load_provision_task_cache
load-save_task j none s h = refl
load-save_task j (some t) s h =
    ap (load_provision_task_cache j) (storage-save_task j t s) ∙ load-stringify j t h

save_task-IsCached :
    (j : TaskJson) (o : Option ProvisionTask) (s : TaskBar)
    → AllNamed o
    → s.task ≡ o
    → IsCached j (save_task j o s)
save_task-IsCached j o s h e =
    let shown : (save_task j o s).task ≡ o = task-save_task j o s ∙ e in
    (subst AllNamed (sym shown) h, load-save_task j o s h ∙ sym shown)

set_task-IsCached :
    (j : TaskJson) (o : Option ProvisionTask) (s : TaskBar)
    → AllNamed o
    → IsCached j (set_task j o s)
unfolding set_task
set_task-IsCached j o s h = save_task-IsCached j o (record s { task = o }) h refl

merge_answer-IsCached :
    (j : TaskJson) (answer : Option TaskState) (prev : Option ProvisionTask) (s : TaskBar)
    → HasStatus answer
    → AllNamed prev
    → IsCached j s
    → IsCached j (merge_answer j answer prev s)
unfolding merged
merge_answer-IsCached j none prev s h n c = c
merge_answer-IsCached j (some task) none s h n c = c
merge_answer-IsCached j (some task) (some prev) s h n c =
    set_task-IsCached j (some (merged task prev)) s (n.0, h)

settle_first-IsCached :
    (j : TaskJson) (answer : Option TaskState) (asked : List String) (s : TaskBar)
    → HasStatus answer
    → IsCached j s
    → IsCached j (settle_first j answer asked s)
settle_first-IsCached j answer [] s h c = c
settle_first-IsCached j answer (id ∷ rest) s h c =
    merge_answer-IsCached j answer s.task (record s { asked = rest }) h c.0 c

show_created-IsCached :
    (j : TaskJson) (o : Option ProvisionTask) (s : TaskBar)
    → AllNamed o
    → IsCached j s
    → IsCached j (show_created j o s)
show_created-IsCached j none s n c = c
show_created-IsCached j (some t) s n c = set_task-IsCached j (some t) s n

recover-IsCached :
    (j : TaskJson) (o : Option RecentTask) (s : TaskBar)
    → FirstNamed o
    → IsCached j s
    → IsCached j (recover j o s)
recover-IsCached j none s n c = c
recover-IsCached j (some t) s n c = elim (Bool-cases (t.status == "running")) [
  | inl running ↦ rw running (set_task-IsCached j (some (recovered_task t)) s n)
  | inr other ↦ rw other c
]

expire-IsCached :
    (j : TaskJson) (o : Option ProvisionTask) (s : TaskBar)
    → IsCached j s
    → IsCached j (expire j o s)
expire-IsCached j none s c = c
expire-IsCached j (some t) s c = elim (Bool-cases (t.status == "success")) [
  | inl over ↦ rw over (set_task-IsCached j none s tt)
  | inr other ↦ rw other c
]

step-IsCached : (j : TaskJson) (a : Step) (s : TaskBar) → IsCached j s → IsCached j (step j a s)
unfolding step
step-IsCached j polls s c = c
step-IsCached j refreshes s c = c
step-IsCached j dismisses s c = set_task-IsCached j none s tt
step-IsCached j expires s c = expire-IsCached j s.task s c
step-IsCached j toggles_recent s c = c
step-IsCached j (answered reply) s c =
    settle_first-IsCached j (get_provision_task reply) s.asked s
      (get_provision_task-HasStatus reply) c
step-IsCached j (created now project_id seed reply) s c =
    let p : Provisioned = provision_after (save_projects_to_backend seed) reply in
    show_created-IsCached j (task_of_answer now project_id p) s
      (task_of_answer-AllNamed now project_id p) c
step-IsCached j (recovers reply) s c =
    recover-IsCached j (head? (list_provision_tasks reply)) s
      (list_provision_tasks-FirstNamed reply) c
step-IsCached j (listed reply) s c = c
step-IsCached j (filters f) s c = c

run-IsCached :
    (j : TaskJson) (work : List Step) (s : TaskBar) → IsCached j s → IsCached j (run j work s)
unfolding run
run-IsCached j [] s c = c
run-IsCached j (a ∷ rest) s c = run-IsCached j rest (step j a s) (step-IsCached j a s c)

mount-IsCached : (j : TaskJson) (storage : Option String) → IsCached j (mount j storage)
unfolding mount
mount-IsCached j storage =
    save_task-IsCached j (load_provision_task_cache j storage) _
      (load_provision_task_cache-AllNamed j storage) refl

-- Whatever localStorage has when the page is opened and whatever happens then, the task that a reload
-- takes from localStorage is the task that is shown.
pub run-cached :
    (j : TaskJson) (storage : Option String) (work : List Step)
    → load_provision_task_cache j (run j work (mount j storage)).storage
      ≡ (run j work (mount j storage)).task
run-cached j storage work = (run-IsCached j work (mount j storage) (mount-IsCached j storage)).1
