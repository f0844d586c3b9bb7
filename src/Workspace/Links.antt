-- ===== src/Workspace/Links.antt =====
-- The links of components to clusters.
use learn_pg.Prelude.{
  ◌≡◌, refl, ◌∙◌, inl, inr, Bool, true, false, ◌||◌, not, Option, none, some, List, [], ◌∷◌, ◌++◌,
  map, String, filter, any, if◌then◌else◌, ◌==◌, string_eq, arith, Bool-cases,
}
use learn_pg.Workspace.Types.{Project, Workspace, Settings}
use learn_pg.Workspace.Edits.{
  toggled, remove_cluster, edit_project, at_project, edit_in, edits, selected_project, act,
}

-- Whether a list of links has the cluster `id`.
abbrev pub links_to : String → List String → Bool
links_to id = any (λ x. x == id)

links_to-without :
    (id x : String) (links : List String)
    → links_to x (filter (λ y. not (y == id)) links) ≡ (if x == id then false else links_to x links)
links_to-without id x [] = ground arith
links_to-without id x (y ∷ links) = ground (
  arith,
  string_eq.same_iff y id,
  string_eq.same_iff x id,
  string_eq.same_iff y x,
  links_to-without id x links,
)

links_to-push :
    (id x : String) (links : List String)
    → links_to x (links ++ id ∷ []) ≡ (links_to x links || (id == x))
links_to-push id x [] = ground arith
links_to-push id x (y ∷ links) = ground (arith, links_to-push id x links)

pub links_to-toggled :
    (id x : String) (links : List String)
    → links_to x (toggled id links)
      ≡ (if x == id then not (links_to id links) else links_to x links)
unfolding toggled
links_to-toggled id x links = elim (Bool-cases (links_to id links)) [
  | inl has ↦ rw has (links_to-without id x links)
  | inr lacks ↦ rw lacks (links_to-push id x links ∙ pushed)
]
  where
    pushed : (links_to x links || (id == x)) ≡ (if x == id then true else links_to x links)
    pushed = ground (arith, string_eq.same_iff id x, string_eq.same_iff x id)

-- Removing a cluster from the workspace leaves the components of every project as they were: their links
-- to the cluster stay.
pub components-remove_cluster :
    (cfg : Settings) (id : String) (s : Workspace)
    → map (λ p. p.components) (act cfg (edits (remove_cluster id)) s).projects
      ≡ map (λ p. p.components) s.projects
unfolding act edit_project
components-remove_cluster cfg id s = of_selected (selected_project s)
  where
    kept :
        (at : String) (ps : List Project)
        → map (λ p. p.components) (map (at_project at (edit_project cfg (remove_cluster id))) ps)
          ≡ map (λ p. p.components) ps
    kept at [] = refl
    kept at (p ∷ ps) = ground (arith, kept at ps)

    of_selected :
        (o : Option Project)
        → map (λ p. p.components) (edit_in cfg (remove_cluster id) o s).projects
          ≡ map (λ p. p.components) s.projects
    of_selected none = refl
    of_selected (some sel) = kept sel.id s.projects
