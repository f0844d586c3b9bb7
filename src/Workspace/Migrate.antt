-- ===== src/Workspace/Migrate.antt =====
-- `migrateWorkspaceProjects` of frontend/src/App.tsx, on projects as the backend has stored them, whose
-- lists may be missing.
use learn_pg.Prelude.{
  ℕ, zero, suc, ◌<◌, ◌≡◌, refl, ap, ap₂, Option, none, some, List, [], ◌∷◌, map, String, get_or,
  All, arith,
}
use learn_pg.Workspace.Types.{ClusterType, Node, Cluster, ComponentType, Component, Project}

-- The integers: `negsuc n` is -(n + 1).
pub data ℤ : Type 0 where
  pos : ℕ → ℤ
  negsuc : ℕ → ℤ

pub record StoredCluster : Type 0 where
  pub id : String
  pub name : String
  pub replication_type : ClusterType
  pub alert_threshold_sec : Option ℤ
  pub nodes : Option (List Node)

pub record StoredComponent : Type 0 where
  pub id : String
  pub name : String
  pub component_type : ComponentType
  pub linked_cluster_ids : Option (List String)

pub record StoredProject : Type 0 where
  pub id : String
  pub name : String
  pub clusters : Option (List StoredCluster)
  pub components : Option (List StoredComponent)

-- `t && t > 0 ? t : 30`
abbrev pub migrate_threshold : Option ℤ → ℕ
migrate_threshold none = 30
migrate_threshold (some (pos zero)) = 30
migrate_threshold (some (pos (suc n))) = suc n
migrate_threshold (some (negsuc n)) = 30

unfoldable pub migrate_cluster : StoredCluster → Cluster
migrate_cluster c = record {
  id = c.id;
  name = c.name;
  replication_type = c.replication_type;
  alert_threshold_sec = some (migrate_threshold c.alert_threshold_sec);
  nodes = get_or c.nodes [];
}

unfoldable pub migrate_component : StoredComponent → Component
migrate_component c = record {
  id = c.id;
  name = c.name;
  component_type = c.component_type;
  linked_cluster_ids = get_or c.linked_cluster_ids [];
}

unfoldable pub migrate_project : StoredProject → Project
unfolding migrate_cluster migrate_component
migrate_project p = record {
  id = p.id;
  name = p.name;
  clusters = map migrate_cluster (get_or p.clusters []);
  components = map migrate_component (get_or p.components []);
}

unfoldable pub migrate_workspace_projects : List StoredProject → List Project
unfolding migrate_project
migrate_workspace_projects ps = map migrate_project ps

abbrev stored_threshold : Option ℕ → Option ℤ
stored_threshold none = none
stored_threshold (some n) = some (pos n)

-- What is saved of a project, and then loaded: all of it.
abbrev pub stored_cluster : Cluster → StoredCluster
stored_cluster c = record {
  id = c.id;
  name = c.name;
  replication_type = c.replication_type;
  alert_threshold_sec = stored_threshold c.alert_threshold_sec;
  nodes = some c.nodes;
}

abbrev pub stored_component : Component → StoredComponent
stored_component c = record {
  id = c.id;
  name = c.name;
  component_type = c.component_type;
  linked_cluster_ids = some c.linked_cluster_ids;
}

abbrev pub stored_project : Project → StoredProject
stored_project p = record {
  id = p.id;
  name = p.name;
  clusters = some (map stored_cluster p.clusters);
  components = some (map stored_component p.components);
}

abbrev IsPositive : Option ℕ → Type 0
IsPositive none = ⊥
IsPositive (some n) = 0 < n

-- Every cluster of the project has a threshold, and it is positive.
abbrev pub HasThresholds : Project → Type 0
HasThresholds p = All (λ c. IsPositive c.alert_threshold_sec) p.clusters

threshold_positive : (o : Option ℤ) → 0 < migrate_threshold o
threshold_positive none = omega arith
threshold_positive (some (pos zero)) = omega arith
threshold_positive (some (pos (suc n))) = omega arith
threshold_positive (some (negsuc n)) = omega arith

threshold_again : (n : ℕ) → 0 < n → migrate_threshold (some (pos n)) ≡ n
threshold_again zero h = absurd (omega arith)
threshold_again (suc n) h = refl

module _ {ℓ κ} {A : Type ℓ} {B : Type κ} where
  All-map_of {κ'} :
      (P : B → Type κ') (f : A → B) (xs : List A) → ((x : A) → P (f x)) → All P (map f xs)
  All-map_of P f [] h = tt
  All-map_of P f (x ∷ xs) h = (h x, All-map_of P f xs h)

  -- What undoes `f` element by element undoes it on lists.
  map-back {κ'} :
      (P : B → Type κ') (f : A → B) (g : B → A) (ys : List B)
      → ((y : B) → P y → f (g y) ≡ y)
      → All P ys
      → map f (map g ys) ≡ ys
  map-back P f g [] h p = refl
  map-back P f g (y ∷ ys) h p = ap₂ (λ z zs. z ∷ zs) (h y p.0) (map-back P f g ys h p.1)

cluster_back :
    (c : Cluster) → IsPositive c.alert_threshold_sec → migrate_cluster (stored_cluster c) ≡ c
unfolding migrate_cluster
cluster_back c h = of_threshold c.alert_threshold_sec h
  where
    of_threshold :
        (o : Option ℕ)
        → IsPositive o
        → record c { alert_threshold_sec = some (migrate_threshold (stored_threshold o)) }
          ≡ record c { alert_threshold_sec = o }
    of_threshold none h = absurd h
    of_threshold (some n) h =
        ap (λ k. record c { alert_threshold_sec = some k }) (threshold_again n h)

components_back : (ms : List Component) → map migrate_component (map stored_component ms) ≡ ms
unfolding migrate_component
components_back [] = refl
components_back (m ∷ ms) = ap (λ l. m ∷ l) (components_back ms)

project_back : (p : Project) → HasThresholds p → migrate_project (stored_project p) ≡ p
unfolding migrate_project
project_back p h =
    ap₂ (λ (cs : List Cluster) (ms : List Component). record p { clusters = cs; components = ms })
      (map-back (λ c. IsPositive c.alert_threshold_sec) migrate_cluster stored_cluster p.clusters
        cluster_back h)
      (components_back p.components)

project-HasThresholds : (p : StoredProject) → HasThresholds (migrate_project p)
unfolding migrate_project migrate_cluster
project-HasThresholds p =
    All-map_of (λ c. IsPositive c.alert_threshold_sec) migrate_cluster (get_or p.clusters [])
      (λ c. threshold_positive c.alert_threshold_sec)

-- After the migration every cluster has a positive threshold, and migrating what is stored of the
-- result changes nothing.
pub migrate_workspace_projects_lem :
    (ps : List StoredProject)
    → let once = migrate_workspace_projects ps in
      All HasThresholds once × (migrate_workspace_projects (map stored_project once) ≡ once)
unfolding migrate_workspace_projects
migrate_workspace_projects_lem ps =
    let good = All-map_of HasThresholds migrate_project ps project-HasThresholds in
    (
      good,
      map-back HasThresholds migrate_project stored_project (map migrate_project ps) project_back
          good,
    )
