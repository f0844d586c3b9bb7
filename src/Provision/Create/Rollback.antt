-- ===== src/Provision/Create/Rollback.antt =====
-- What a creation leaves in the workspace.
use learn_pg.Prelude.{
  ℕ, ◌≡◌, refl, sym, ap, ◌∙◌, subst, Bool, true, false, Option, none, some, List, [], ◌∷◌, ◌++◌,
  map, String, find, any, ◌==◌, string_eq, beq→eq, beq_refl, not, ◌||◌, ◌&&◌, Bool-cases, inl, inr,
  arith,
}
use learn_pg.Workspace.Types.{Project, Workspace, Settings}
use learn_pg.Workspace.Edits.{Edit, edits, act, edit_in, remaining, run, selected_project}
use learn_pg.Workspace.Preservation.{remaining-edits}
use learn_pg.Workspace.Templates.{Template, Params}
use learn_pg.Provision.Backend.{
  Reply, ProjectsBody, ProvisionBody, Provisioned, is_given, save_projects_to_backend,
}
use learn_pg.Provision.Task.{
  ProvisionTask, TaskJson, TaskBar, created, step, provision_after, task_of_answer, failed_task,
  set_task, save_task,
}
use learn_pg.Provision.Create.{
  Shell, chosen_name, confirm_preview, preview_project, begin_create, edit_shell, settle_create,
  after_provision,
}

-- Whether a project has the id.
abbrev pub has_project : String → List Project → Bool
has_project id ps = any (λ p. p.id == id) ps

module _ (id : String) where
  has_project-map :
      (ps : List Project) → has_project id ps ≡ any (λ i. i == id) (map (λ p. p.id) ps)
  has_project-map [] = refl
  has_project-map (p ∷ ps) = ap (λ b. (p.id == id) || b) (has_project-map ps)

  has_project-append :
      (ps : List Project) (p : Project) → p.id ≡ id → has_project id (ps ++ p ∷ []) ≡ true
  has_project-append [] p e = ground (arith, e, beq_refl id)
  has_project-append (q ∷ ps) p e = ground (arith, has_project-append ps p e)

  find-has_project :
      (ps : List Project)
      → has_project id ps ≡ true
      → (sel : Project) × (find (λ p. p.id == id) ps ≡ some sel) × (sel.id ≡ id)
  find-has_project [] h = absurd (cc)
  find-has_project (p ∷ ps) h = elim (Bool-cases (p.id == id)) [
    | inl hit ↦ (p, rw hit refl, beq→eq p.id id hit)
    | inr miss ↦
        let later = find-has_project ps (ground (arith, h, miss)) in
        (later.0, rw miss later.1, later.2)
  ]

  find-append :
      (ps : List Project) (p : Project)
      → has_project id ps ≡ false
      → p.id ≡ id
      → find (λ q. q.id == id) (ps ++ p ∷ []) ≡ some p
  find-append [] p h e = ground (arith, e, beq_refl id)
  find-append (q ∷ ps) p h e =
      ground (arith, h, λ (r : has_project id ps ≡ false). find-append ps p r e)

  remaining-append :
      (ps : List Project) (p : Project)
      → has_project id ps ≡ false
      → p.id ≡ id
      → remaining id (ps ++ p ∷ []) ≡ ps
  remaining-append [] p h e = ground (arith, e, beq_refl id)
  remaining-append (q ∷ ps) p h e =
      ground (arith, h, λ (r : has_project id ps ≡ false). remaining-append ps p r e)

  selected_project-find :
      (s : Workspace)
      → s.selected_project_id ≡ id
      → has_project id s.projects ≡ true
      → (sel : Project) × (selected_project s ≡ some sel) × (sel.id ≡ id)
  unfolding selected_project
  selected_project-find s e h =
      let found = find-has_project s.projects h in (found.0, rw (e, found.1) refl, found.2)

  selected-edit_in :
      (cfg : Settings) (e : Edit) (o : Option Project) (s : Workspace)
      → (edit_in cfg e o s).selected_project_id ≡ s.selected_project_id
  selected-edit_in cfg e none s = refl
  selected-edit_in cfg e (some sel) s = refl

  selected-act :
      (cfg : Settings) (e : Edit) (s : Workspace)
      → (act cfg (edits e) s).selected_project_id ≡ s.selected_project_id
  unfolding act
  selected-act cfg e s = selected-edit_in cfg e (selected_project s) s

  -- Edits inside the project `id` leave the other projects.
  remaining-run :
      (cfg : Settings) (es : List Edit) (s : Workspace)
      → s.selected_project_id ≡ id
      → has_project id s.projects ≡ true
      → remaining id (run cfg (map edits es) s).projects ≡ remaining id s.projects
  unfolding run
  remaining-run cfg [] s e h = refl
  remaining-run cfg (a ∷ es) s e h =
      let (sel, is_sel, same) = selected_project-find s e h in
      let next : Workspace = act cfg (edits a) s in
      let kept = remaining-edits cfg a s is_sel in
      let still : has_project id next.projects ≡ true =
        has_project-map next.projects
        ∙ ap (any (λ i. i == id)) kept.1
        ∙ sym (has_project-map s.projects)
        ∙ h in
      remaining-run cfg es next (selected-act cfg a s ∙ e) still
      ∙ subst (λ i. remaining i next.projects ≡ remaining i s.projects) same kept.0

-- A creation fails where the projects cannot be saved or the backend refuses, and no task was made.
abbrev pub has_failed : Provisioned → Bool
has_failed p = not p.ok && not (is_given p.task_id)

after_provision-failed :
    (project_id : String) (p : Provisioned) (remote : Reply ProjectsBody) (s : Shell)
    → has_failed p ≡ true
    → (after_provision project_id p remote s).workspace.projects
      ≡ remaining project_id s.workspace.projects
after_provision-failed project_id p remote s h = ground (arith, h)

bar-after_provision :
    (project_id : String) (p : Provisioned) (remote : Reply ProjectsBody) (s : Shell)
    → has_failed p ≡ true
    → (after_provision project_id p remote s).bar ≡ s.bar
bar-after_provision project_id p remote s h = ground (arith, h)

task_of_answer-failed :
    (now : ℕ) (project_id : String) (p : Provisioned)
    → has_failed p ≡ true
    → task_of_answer now project_id p ≡ some (failed_task now project_id p.error)
unfolding task_of_answer
task_of_answer-failed now project_id p h = ground (arith, h)

-- The task bar that a failed creation leaves.
abbrev pub ShowsFailure : ProvisionTask → TaskBar → Type 0
ShowsFailure t b =
    (b.task ≡ some t) × (b.show_recent_tasks ≡ true) × (b.recent_task_filter ≡ "failed")

step-ShowsFailure :
    (j : TaskJson) (now : ℕ) (project_id : String) (seed : Reply (Unit {0}))
    (reply : Reply ProvisionBody) (b : TaskBar)
    → has_failed (provision_after (save_projects_to_backend seed) reply) ≡ true
    → ShowsFailure
        (failed_task now project_id (provision_after (save_projects_to_backend seed) reply).error)
        (step j (created now project_id seed reply) b)
unfolding step set_task save_task
step-ShowsFailure j now project_id seed reply b h =
    rw
      (task_of_answer-failed now project_id (provision_after (save_projects_to_backend seed) reply)
        h)
      (refl, refl, refl)

-- Where a creation with a new id fails, whatever the user has edited in the new project meanwhile, the
-- projects are those from before it, and the task bar shows its failure among the failed tasks.
pub settle_create-failed :
    (cfg : Settings) (j : TaskJson) (now : ℕ) (project_id name : String) (seed : Reply (Unit {0}))
    (reply : Reply ProvisionBody) (remote : Reply ProjectsBody) (es : List Edit) (s : Shell)
    → has_project project_id s.workspace.projects ≡ false
    → has_failed (provision_after (save_projects_to_backend seed) reply) ≡ true
    → ((settle_create j now project_id seed reply remote
          (edit_shell cfg es (begin_create project_id name s))).workspace.projects
        ≡ s.workspace.projects)
      × ShowsFailure
          (failed_task now project_id (provision_after (save_projects_to_backend seed) reply).error)
          (settle_create j now project_id seed reply remote
            (edit_shell cfg es (begin_create project_id name s))).bar
unfolding settle_create edit_shell begin_create
settle_create-failed cfg j now project_id name seed reply remote es s new failed =
    let p : Provisioned = provision_after (save_projects_to_backend seed) reply in
    let edited : Shell = edit_shell cfg es (begin_create project_id name s) in
    let later : Shell = record edited {
      bar = step j (created now project_id seed reply) edited.bar;
    } in
    let base : Project = record {
      id = project_id;
      name = chosen_name name s.workspace.projects;
      clusters = [];
      components = [];
    } in
    (
      after_provision-failed project_id p remote later failed
          ∙ remaining-run project_id cfg es (begin_create project_id name s).workspace refl
              (has_project-append project_id s.workspace.projects base refl)
          ∙ remaining-append project_id s.workspace.projects base new refl,
      subst (ShowsFailure (failed_task now project_id p.error))
          (sym (bar-after_provision project_id p remote later failed))
          (step-ShowsFailure j now project_id seed reply edited.bar failed),
    )

-- A preview with a new id leaves the projects there were and selects the one that it adds.
pub selected_project-confirm_preview :
    (cfg : Settings) (t : Template) (ids : ℕ → String) (id name : String) (params : Params)
    (s : Shell)
    → has_project id s.workspace.projects ≡ false
    → (remaining id (confirm_preview cfg t ids id name params s).workspace.projects
        ≡ s.workspace.projects)
      × (selected_project (confirm_preview cfg t ids id name params s).workspace
          ≡ some (preview_project cfg t ids id (chosen_name name s.workspace.projects) params))
unfolding confirm_preview selected_project
selected_project-confirm_preview cfg t ids id name params s new =
    let p : Project = preview_project cfg t ids id (chosen_name name s.workspace.projects) params in
    (
      remaining-append id s.workspace.projects p new refl,
      rw (find-append id s.workspace.projects p new refl) refl,
    )
