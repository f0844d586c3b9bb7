-- ===== src/Sync/Saves.antt =====
-- What the delayed save sends.
use learn_pg.Prelude.{
  ◌≡◌, refl, ap, sym, subst, ◌∙◌, ◌⊎◌, All, inl, inr, true, false, Option, none, some, List, [],
  ◌∷◌, head?, if◌then◌else◌, Bool-cases, Option-cases,
}
use learn_pg.Workspace.Types.{Project, Workspace, Settings}
use learn_pg.Provision.Backend.{Reply, ProjectsBody, load_projects_from_backend}
use learn_pg.Workspace.Edits.{
  Action, edits, create_project, remove_project, update_project, act, selected_project,
  run as edits_run,
}
use learn_pg.Sync.{
  Sync, opened, schedule_save, take_loaded, reload, fire_save, sent_now, sets_projects, Event,
  loads, reloads, acts, fires, saved, step, run,
}

-- A loaded workspace has a timer set, or its projects are the ones sent last.
abbrev pub IsSaved : Sync → Type 0
IsSaved s =
    (s.workspace_bootstrapped ≡ false)
    ⊎ (s.save_timer ≡ true)
    ⊎ (head? s.sent ≡ some s.workspace.projects)

schedule_save-IsSaved : (s : Sync) → IsSaved (schedule_save s)
unfolding schedule_save
schedule_save-IsSaved s = elim (Bool-cases s.workspace_bootstrapped) [
  | inl loaded ↦ inr (inl loaded)
  | inr early ↦ inl early
]

take_loaded-IsSaved : (o : Option (List Project)) (s : Sync) → IsSaved (take_loaded o s)
take_loaded-IsSaved none s = schedule_save-IsSaved _
take_loaded-IsSaved (some remote) s = schedule_save-IsSaved _

reload-IsSaved : (o : Option (List Project)) (s : Sync) → IsSaved s → IsSaved (reload o s)
reload-IsSaved none s h = h
reload-IsSaved (some remote) s h = schedule_save-IsSaved _

fire_save-IsSaved : (s : Sync) → IsSaved s → IsSaved (fire_save s)
fire_save-IsSaved s h = elim (Bool-cases s.save_timer) [
  | inl set ↦ subst (λ b. IsSaved (if b then sent_now s else s)) (sym set) (inr (inr refl))
  | inr unset ↦ subst (λ b. IsSaved (if b then sent_now s else s)) (sym unset) h
]

step-IsSaved : (cfg : Settings) (e : Event) (s : Sync) → IsSaved s → IsSaved (step cfg e s)
unfolding step
step-IsSaved cfg (loads reply) s h = take_loaded-IsSaved (load_projects_from_backend reply) s
step-IsSaved cfg (reloads reply) s h = reload-IsSaved (load_projects_from_backend reply) s h
step-IsSaved cfg (acts a) s h = elim (Bool-cases (sets_projects a s.workspace)) [
  | inl sets ↦ rw sets (schedule_save-IsSaved (record s { workspace = act cfg a s.workspace }))
  | inr nothing ↦ rw nothing h
]
step-IsSaved cfg fires s h = fire_save-IsSaved s h
step-IsSaved cfg (saved reply) s h = h

run-keeps_IsSaved :
    (cfg : Settings) (es : List Event) (s : Sync) → IsSaved s → IsSaved (run cfg es s)
unfolding run
run-keeps_IsSaved cfg [] s h = h
run-keeps_IsSaved cfg (e ∷ es) s h =
    run-keeps_IsSaved cfg es (step cfg e s) (step-IsSaved cfg e s h)

-- From the opening of the page on, in every state in which the workspace has been loaded, a save is
-- pending or the projects are the ones that the last save sent: no change is left unsent.
pub run-IsSaved : (cfg : Settings) (es : List Event) → IsSaved (run cfg es opened)
unfolding opened
run-IsSaved cfg es = run-keeps_IsSaved cfg es opened (inl refl)

-- The backend does not tell what it has.
abbrev pub Fails : Event → Type 0
Fails (loads reply) = load_projects_from_backend reply ≡ none
Fails (reloads reply) = load_projects_from_backend reply ≡ none
Fails e = Unit {0}

-- What the user does among the events.
abbrev pub actions_of : List Event → List Action
actions_of [] = []
actions_of (acts a ∷ es) = a ∷ actions_of es
actions_of (_ ∷ es) = actions_of es

-- The state has been loaded and has the workspace `w`.
abbrev Has : Workspace → Sync → Type 0
Has w s = (s.workspace_bootstrapped ≡ true) × (s.workspace ≡ w)

act-no_project :
    (cfg : Settings) (a : Action) (w : Workspace) → sets_projects a w ≡ false → act cfg a w ≡ w
unfolding act
act-no_project cfg (edits e) w h = elim (Option-cases (selected_project w)) [
  | inl missing ↦ rw missing refl
  | inr (p, found) ↦ let impossible : true ≡ false = rw found at h in absurd (cc)
]
act-no_project cfg (create_project id) w h = absurd (cc)
act-no_project cfg (remove_project id) w h = absurd (cc)
act-no_project cfg (update_project id name) w h = absurd (cc)

fire_save-Has : (w : Workspace) (s : Sync) → Has w s → Has w (fire_save s)
fire_save-Has w s h = elim (Bool-cases s.save_timer) [ inl set ↦ rw set h | inr unset ↦ rw unset h ]

run-Has :
    (cfg : Settings) (es : List Event) (w : Workspace) (s : Sync)
    → All Fails es
    → Has w s
    → Has (edits_run cfg (actions_of es) w) (run cfg es s)
unfolding run step schedule_save edits_run
run-Has cfg [] w s f h = h
run-Has cfg (loads reply ∷ es) w s f h = run-Has cfg es w _ f.1 (rw f.0 (refl, h.1))
run-Has cfg (reloads reply ∷ es) w s f h = run-Has cfg es w _ f.1 (rw f.0 h)
run-Has cfg (acts a ∷ es) w s f h =
    run-Has cfg es (act cfg a w) _ f.1 (elim (Bool-cases (sets_projects a s.workspace)) [
      | inl sets ↦ rw sets (h.0, ap (act cfg a) h.1)
      | inr nothing ↦
          rw nothing (h.0, sym (act-no_project cfg a s.workspace nothing) ∙ ap (act cfg a) h.1)
    ])
run-Has cfg (fires ∷ es) w s f h = run-Has cfg es w _ f.1 (fire_save-Has w s h)
run-Has cfg (saved reply ∷ es) w s f h = run-Has cfg es w _ f.1 h

fire_save-sent :
    (w : Workspace) (s : Sync) → Has w s → IsSaved s → head? (fire_save s).sent ≡ some w.projects
fire_save-sent w s h (inl early) = absurd (cc)
fire_save-sent w s h (inr (inl set)) = rw set (ap (λ v. some v.projects) h.1)
fire_save-sent w s h (inr (inr same)) = elim (Bool-cases s.save_timer) [
  | inl set ↦ rw set (ap (λ v. some v.projects) h.1)
  | inr unset ↦ rw unset (same ∙ ap (λ v. some v.projects) h.1)
]

-- Where the load fails when the page is opened, and every load and reload after it, what the user then
-- does begins with no projects, and what the next save has sent last is only what the user has made
-- from nothing: whatever the backend has stored, nothing of it is in the list that replaces it.
pub run-failed_load :
    (cfg : Settings) (reply : Reply ProjectsBody) (es : List Event)
    → load_projects_from_backend reply ≡ none
    → All Fails es
    → let w = edits_run cfg (actions_of es) opened.workspace in
      let s = run cfg (loads reply ∷ es) opened in
      (s.workspace ≡ w) × (head? (step cfg fires s).sent ≡ some w.projects)
unfolding run step schedule_save opened
run-failed_load cfg reply es h f =
    let before = loads reply ∷ es in
    let loaded : Has opened.workspace (step cfg (loads reply) opened) = rw h (refl, refl) in
    let has = run-Has cfg es opened.workspace (step cfg (loads reply) opened) f loaded in
    (has.1, fire_save-sent _ (run cfg before opened) has (run-IsSaved cfg before))
