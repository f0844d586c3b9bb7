-- ===== src/Workspace/Preservation.antt =====
-- What every edit of the workspace keeps.
use learn_pg.Prelude.{
  ◌≤◌, ◌≡◌, refl, sym, ap, subst, Bool, true, false, not, Option, none, some, List, [], ◌∷◌, ◌++◌,
  map, String, length, filter, if◌then◌else◌, ◌==◌, string_eq, arith, All, All-append, All-filter,
}
use learn_pg.Workspace.Types.{Node, Cluster, Project, Workspace, Settings}
use learn_pg.Workspace.Edits.{
  default_cluster, patch_cluster, drop_node, or_kept, Edit, create_cluster, remove_cluster,
  update_cluster_node, add_node, remove_node, create_component, remove_component, update_component,
  toggle_link, edit_project, edit_in, at_project, at_cluster, Action, create_project,
  remove_project, update_project, edits, remaining, deselect, selected_project, act, run,
}

-- A list with at least one node.
abbrev pub IsInhabited : List Node → Type 0
IsInhabited ns = 1 ≤ length ns

-- Every cluster of the project has a node.
abbrev pub HasNodes : Project → Type 0
HasNodes p = All (λ c. IsInhabited c.nodes) p.clusters

module _ {ℓ κ} {A : Type ℓ} (P : A → Type κ) where
  All-map_keep :
      (f : A → A) → ((x : A) → P x → P (f x)) → (xs : List A) → All P xs → All P (map f xs)
  All-map_keep f keeps [] h = tt
  All-map_keep f keeps (x ∷ xs) h = (keeps x h.0, All-map_keep f keeps xs h.1)

  if-keep : (b : Bool) (x y : A) → P x → P y → P (if b then x else y)
  if-keep true x y p q = p
  if-keep false x y p q = q

map-IsInhabited : (f : Node → Node) (ns : List Node) → IsInhabited ns → IsInhabited (map f ns)
map-IsInhabited f [] h = h
map-IsInhabited f (n ∷ ns) h = omega arith

push-IsInhabited : (ns : List Node) (n : Node) → IsInhabited (ns ++ n ∷ [])
push-IsInhabited [] n = omega arith
push-IsInhabited (m ∷ ns) n = omega arith

or_kept-IsInhabited : (new old : List Node) → IsInhabited old → IsInhabited (or_kept new old)
or_kept-IsInhabited [] old h = h
or_kept-IsInhabited (n ∷ ns) old h = omega arith

-- A cluster's nodes stay inhabited under every change to the cluster with some id.
at_cluster-HasNodes :
    (id : String) (f : Cluster → Cluster) (p : Project)
    → ((c : Cluster) → IsInhabited c.nodes → IsInhabited (f c).nodes)
    → HasNodes p
    → HasNodes (at_cluster id f p)
at_cluster-HasNodes id f p keeps h =
    All-map_keep (λ c. IsInhabited c.nodes) (λ c. if c.id == id then f c else c)
      (λ c n. if-keep (λ (d : Cluster). IsInhabited d.nodes) (c.id == id) (f c) c (keeps c n) n)
      p.clusters h

edit_project-HasNodes :
    (cfg : Settings) (e : Edit) (p : Project) → HasNodes p → HasNodes (edit_project cfg e p)
unfolding edit_project default_cluster drop_node
edit_project-HasNodes cfg (create_cluster id node_id) p h =
    All-append (λ c. IsInhabited c.nodes) p.clusters _ h (omega arith, tt)
edit_project-HasNodes cfg (remove_cluster id) p h =
    All-filter (λ c. IsInhabited c.nodes) (λ c. not (c.id == id)) p.clusters h
edit_project-HasNodes cfg (update_cluster_node cluster_id node_id patch) p h =
    at_cluster-HasNodes cluster_id (patch_cluster node_id patch) p
      (λ c n.
        if-keep (λ (d : Cluster). IsInhabited d.nodes) (node_id == "") _ _ n
          (map-IsInhabited _ c.nodes n))
      h
edit_project-HasNodes cfg (add_node cluster_id id) p h =
    at_cluster-HasNodes cluster_id _ p (λ c n. push-IsInhabited c.nodes _) h
edit_project-HasNodes cfg (remove_node cluster_id node_id) p h =
    at_cluster-HasNodes cluster_id (drop_node node_id) p
      (λ c n. or_kept-IsInhabited (filter (λ m. not (m.id == node_id)) c.nodes) c.nodes n) h
edit_project-HasNodes cfg (create_component id) p h = h
edit_project-HasNodes cfg (remove_component id) p h = h
edit_project-HasNodes cfg (update_component id name type) p h = h
edit_project-HasNodes cfg (toggle_link component_id cluster_id) p h = h

projects-deselect : (id : String) (s : Workspace) → (deselect id s).projects ≡ s.projects
projects-deselect id s = ground arith

edit_in-HasNodes :
    (cfg : Settings) (e : Edit) (o : Option Project) (s : Workspace)
    → All HasNodes s.projects
    → All HasNodes (edit_in cfg e o s).projects
edit_in-HasNodes cfg e none s h = h
edit_in-HasNodes cfg e (some sel) s h =
    All-map_keep HasNodes (at_project sel.id (edit_project cfg e))
      (λ p n. if-keep HasNodes (p.id == sel.id) _ p (edit_project-HasNodes cfg e p n) n) s.projects
      h

act-HasNodes :
    (cfg : Settings) (a : Action) (s : Workspace)
    → All HasNodes s.projects
    → All HasNodes (act cfg a s).projects
unfolding act
act-HasNodes cfg (create_project id) s h = All-append HasNodes s.projects _ h (tt, tt)
act-HasNodes cfg (remove_project id) s h =
    subst (All HasNodes)
      (sym (projects-deselect id (record s { projects = remaining id s.projects })))
      (All-filter HasNodes (λ p. not (p.id == id)) s.projects h)
act-HasNodes cfg (update_project id name) s h =
    All-map_keep HasNodes (at_project id _) (λ p n. if-keep HasNodes (p.id == id) _ p n n)
      s.projects h
act-HasNodes cfg (edits e) s h = edit_in-HasNodes cfg e (selected_project s) s h

-- Whatever is edited, in a workspace in which every cluster has a node every cluster keeps one.
pub run-HasNodes :
    (cfg : Settings) (as' : List Action) (s : Workspace)
    → All HasNodes s.projects
    → All HasNodes (run cfg as' s).projects
unfolding run
run-HasNodes cfg [] s h = h
run-HasNodes cfg (a ∷ rest) s h = run-HasNodes cfg rest (act cfg a s) (act-HasNodes cfg a s h)

id-edit_project : (cfg : Settings) (e : Edit) (p : Project) → (edit_project cfg e p).id ≡ p.id
unfolding edit_project
id-edit_project cfg (create_cluster id node_id) p = refl
id-edit_project cfg (remove_cluster id) p = refl
id-edit_project cfg (update_cluster_node cluster_id node_id patch) p = refl
id-edit_project cfg (add_node cluster_id id) p = refl
id-edit_project cfg (remove_node cluster_id node_id) p = refl
id-edit_project cfg (create_component id) p = refl
id-edit_project cfg (remove_component id) p = refl
id-edit_project cfg (update_component id name type) p = refl
id-edit_project cfg (toggle_link component_id cluster_id) p = refl

remaining-at_project :
    (id : String) (f : Project → Project) (ps : List Project)
    → ((p : Project) → (f p).id ≡ p.id)
    → remaining id (map (at_project id f) ps) ≡ remaining id ps
remaining-at_project id f [] keeps = refl
remaining-at_project id f (p ∷ ps) keeps =
    ground (arith, remaining-at_project id f ps keeps, ap (λ i. i == id) (keeps p))

-- An edit inside the selected project changes no project of another id, adds none and removes none.
pub remaining-edits :
    (cfg : Settings) (e : Edit) (s : Workspace) {sel : Project}
    → selected_project s ≡ some sel
    → (remaining sel.id (act cfg (edits e) s).projects ≡ remaining sel.id s.projects)
      × (map (λ p. p.id) (act cfg (edits e) s).projects ≡ map (λ p. p.id) s.projects)
unfolding act
remaining-edits cfg e s {sel} h =
    subst
      (λ o.
        (remaining sel.id (edit_in cfg e o s).projects ≡ remaining sel.id s.projects)
        × (map (λ p. p.id) (edit_in cfg e o s).projects ≡ map (λ p. p.id) s.projects))
      (sym h)
      (
        remaining-at_project sel.id (edit_project cfg e) s.projects (id-edit_project cfg e),
        ids s.projects,
      )
  where
    ids :
        (ps : List Project)
        → map (λ p. p.id) (map (at_project sel.id (edit_project cfg e)) ps) ≡ map (λ p. p.id) ps
    ids [] = refl
    ids (p ∷ ps) = ground (arith, ids ps, id-edit_project cfg e p)
