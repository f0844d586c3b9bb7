-- ===== src/Workspace/Selection/Settles.antt =====
-- The effect on the selection, run again.
use learn_pg.Prelude.{
  ◌≡◌, refl, sym, ap, ◌∙◌, subst, Option, none, some, List, [], ◌∷◌, String, head?, find, ◌==◌,
  string_eq, beq→eq, beq_refl, Bool-cases, Option-cases, inl, inr, arith,
}
use learn_pg.Workspace.Types.{Cluster, Project}
use learn_pg.Workspace.Selection.{
  Selection, chosen, or_id, first_node_id, complete_in_cluster, complete_in_project,
  complete_selection, node_in, clusters_in, selected_node_config,
}

module _ {A : Type 0} (id_of : A → String) where
  find-id :
      (id : String) (xs : List A) {x : A} → find (λ y. id_of y == id) xs ≡ some x → id_of x ≡ id
  find-id id [] h = absurd (cc)
  find-id id (y ∷ xs) {x} h = elim (Bool-cases (id_of y == id)) [
    | inl hit ↦
        let e : some y ≡ some x = rw hit at h in
        let same : y ≡ x = cc in subst (λ z. id_of z ≡ id) same (beq→eq (id_of y) id hit)
    | inr miss ↦ find-id id xs (ground (arith, h, miss))
  ]

  find-head : (xs : List A) {x : A} → head? xs ≡ some x → find (λ y. id_of y == id_of x) xs ≡ some x
  find-head [] h = absurd (cc)
  find-head (y ∷ xs) {x} h =
      let same : y ≡ x = cc in
      subst (λ z. find (λ w. id_of w == id_of z) (y ∷ xs) ≡ some z) same
        (rw (beq_refl (id_of y)) refl)

  -- What has been chosen is found by its own id.
  find-chosen :
      (id : String) (xs : List A) {x : A}
      → chosen id_of id xs ≡ some x
      → find (λ y. id_of y == id_of x) xs ≡ some x
  unfolding chosen
  find-chosen id xs {x} h = elim (Option-cases (find (λ y. id_of y == id) xs)) [
    | inl e ↦ let first : head? xs ≡ some x = rw e at h in find-head xs first
    | inr (y, e) ↦
        let found : find (λ z. id_of z == id) xs ≡ some x = e ∙ (rw e at h) in
        subst (λ i. find (λ z. id_of z == i) xs ≡ some x) (sym (find-id id xs found)) found
  ]

  chosen-chosen :
      (id : String) (xs : List A) {x : A}
      → chosen id_of id xs ≡ some x
      → chosen id_of (id_of x) xs ≡ some x
  unfolding chosen
  chosen-chosen id xs {x} h = rw (find-chosen id xs h) refl

  chosen-or_id :
      (id : String) (xs : List A) {x : A}
      → chosen id_of id xs ≡ some x
      → chosen id_of (or_id id (id_of x)) xs ≡ some x
  chosen-or_id id xs {x} h = elim (Bool-cases (id == "")) [
    | inl blank ↦ rw blank (chosen-chosen id xs h)
    | inr given ↦ rw given h
  ]

chosen-none :
    (id : String) (cs : List Cluster)
    → chosen (λ c. c.id) id cs ≡ none
    → find (λ c. c.id == id) cs ≡ none
unfolding chosen
chosen-none id [] h = refl
chosen-none id (c ∷ cs) h = elim (Option-cases (find (λ d. d.id == id) (c ∷ cs))) [
  | inl e ↦ e
  | inr (d, e) ↦ let found : some d ≡ none = rw e at h in absurd (cc)
]

or_id-or_id : (id d : String) → or_id (or_id id d) d ≡ or_id id d
or_id-or_id id d = ground arith

project-complete_in_cluster :
    (o : Option Cluster) (s : Selection) → (complete_in_cluster o s).project_id ≡ s.project_id
project-complete_in_cluster none s = refl
project-complete_in_cluster (some c) s = refl

-- Completing again in the same project.
complete_in_cluster-again :
    (cs : List Cluster) (o : Option Cluster) (s : Selection)
    → chosen (λ c. c.id) s.cluster_id cs ≡ o
    → (complete_in_cluster
          (chosen (λ c. c.id) (complete_in_cluster o s).cluster_id cs)
          (complete_in_cluster o s)
        ≡ complete_in_cluster o s)
      × (find (λ c. c.id == (complete_in_cluster o s).cluster_id) cs ≡ o)
complete_in_cluster-again cs none s h = (rw h refl, chosen-none s.cluster_id cs h)
complete_in_cluster-again cs (some c) s h = (
  rw (chosen-chosen (λ c. c.id) s.cluster_id cs h, or_id-or_id s.node_id (first_node_id c.nodes))
      refl,
  find-chosen (λ c. c.id) s.cluster_id cs h,
)

complete_selection-settled :
    (ps : List Project) (p : Project) (r : Selection)
    → chosen (λ q. q.id) r.project_id ps ≡ some p
    → or_id r.project_id p.id ≡ r.project_id
    → complete_in_cluster (chosen (λ c. c.id) r.cluster_id p.clusters) r ≡ r
    → complete_selection ps r ≡ r
unfolding complete_selection
complete_selection-settled ps p r h e settled =
    ap (λ o. complete_in_project o r) h
    ∙ subst
        (λ i.
          complete_in_cluster (chosen (λ c. c.id) r.cluster_id p.clusters)
            (record r { project_id = i })
          ≡ r)
        (sym e) settled

selected_node_config-in :
    (ps : List Project) {o : Option Project} {c : Option Cluster} (r : Selection)
    → chosen (λ q. q.id) r.project_id ps ≡ o
    → find (λ d. d.id == r.cluster_id) (clusters_in o) ≡ c
    → selected_node_config ps r ≡ node_in c r.node_id
unfolding selected_node_config
selected_node_config-in ps {o} {c} r h e =
    ap (λ q. node_in (find (λ d. d.id == r.cluster_id) (clusters_in q)) r.node_id) h
    ∙ ap (λ d. node_in d r.node_id) e

complete_in_project-again :
    (ps : List Project) (o : Option Project) (s : Selection)
    → chosen (λ p. p.id) s.project_id ps ≡ o
    → (complete_selection ps (complete_in_project o s) ≡ complete_in_project o s)
      × (selected_node_config ps (complete_in_project o s)
          ≡ node_in
              (chosen (λ c. c.id) s.cluster_id (clusters_in o))
              (complete_in_project o s).node_id)
unfolding complete_selection chosen
complete_in_project-again ps none s h = (rw h refl, selected_node_config-in ps s h refl)
complete_in_project-again ps (some p) s h =
    let t : Selection = record s { project_id = or_id s.project_id p.id } in
    let o : Option Cluster = chosen (λ c. c.id) s.cluster_id p.clusters in
    let r : Selection = complete_in_cluster o t in
    let again = complete_in_cluster-again p.clusters o t refl in
    let kept : r.project_id ≡ t.project_id = project-complete_in_cluster o t in
    let same : chosen (λ q. q.id) r.project_id ps ≡ some p =
      ap (λ i. chosen (λ q. q.id) i ps) kept ∙ chosen-or_id (λ q. q.id) s.project_id ps h in
    let full : or_id r.project_id p.id ≡ r.project_id =
      ap (λ i. or_id i p.id) kept ∙ or_id-or_id s.project_id p.id ∙ sym kept in
    (complete_selection-settled ps p r same full again.0, selected_node_config-in ps r same again.1)

-- The effect on the selection settles at once: run again it changes nothing. The node that is then
-- shown is one of the cluster selected before, or of the project's first cluster where there is none.
pub complete_selection-again :
    (ps : List Project) (s : Selection)
    → (complete_selection ps (complete_selection ps s) ≡ complete_selection ps s)
      × (selected_node_config ps (complete_selection ps s)
          ≡ node_in
              (chosen (λ c. c.id) s.cluster_id (clusters_in (chosen (λ p. p.id) s.project_id ps)))
              (complete_selection ps s).node_id)
unfolding complete_selection
complete_selection-again ps s =
    complete_in_project-again ps (chosen (λ p. p.id) s.project_id ps) s refl
