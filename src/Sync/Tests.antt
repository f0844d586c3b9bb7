-- ===== src/Sync/Tests.antt =====
-- Tests of the delayed save.
use learn_pg.Prelude.{◌≡◌, refl, true, Option, some, List, [], ◌∷◌, map, head?}
use learn_pg.Workspace.Types.{Settings}
use learn_pg.Workspace.Edits.{create_project, act, run as edits_run}
use learn_pg.Workspace.Migrate.{migrate_workspace_projects}
use learn_pg.Provision.Backend.{
  rejected, refused, replied, ProjectsBody, load_projects_from_backend, save_projects_to_backend,
}
use learn_pg.Sync.{Event, loads, reloads, acts, fires, saved, opened, run, step, schedule_save}
use learn_pg.Sync.Saves.{IsSaved, run-IsSaved, run-failed_load}

abbrev settings : Settings
settings = record { host = "localhost"; port = 5_432; user = "postgres"; database = "postgres" }

abbrev stored : ProjectsBody
stored = record {
  success = true;
  projects =
      some (record { id = "o"; name = "o"; clusters = Option.none; components = Option.none } ∷ []);
}

abbrev work : List Event
work = loads (replied stored) ∷ acts (create_project "p") ∷ fires ∷ saved (refused 500) ∷ []

sent_by_work : map (map (λ p. p.id)) (run settings work opened).sent ≡ ("o" ∷ "p" ∷ []) ∷ []
unfolding run opened step schedule_save load_projects_from_backend migrate_workspace_projects act
    save_projects_to_backend
sent_by_work = refl

run-IsSaved_example : IsSaved (run settings work opened)
run-IsSaved_example = run-IsSaved settings work

-- The load fails, and the user makes a project: it replaces what is stored.
abbrev unlucky : List Event
unlucky = fires ∷ acts (create_project "p") ∷ reloads rejected ∷ []

run-failed_load_example :
    let w = edits_run settings (create_project "p" ∷ []) opened.workspace in
    let s = run settings (loads (refused 502) ∷ unlucky) opened in
    (s.workspace ≡ w) × (head? (step settings fires s).sent ≡ some w.projects)
unfolding load_projects_from_backend
run-failed_load_example = run-failed_load settings (refused 502) unlucky refl (tt, (tt, (refl, tt)))

sent_by_unlucky :
    map
      (map (λ p. p.id))
      (step settings fires (run settings (loads (refused 502) ∷ unlucky) opened)).sent
    ≡ ("p" ∷ []) ∷ [] ∷ []
unfolding run opened step schedule_save load_projects_from_backend act
sent_by_unlucky = refl
