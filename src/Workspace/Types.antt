-- ===== src/Workspace/Types.antt =====
-- frontend/src/types/workspace.ts and `ClusterNodeConfig` of frontend/src/types/cluster.ts, with the
-- part of the state of `App` that holds the projects and what is selected.
use learn_pg.Prelude.{ℕ, Option, List, String}

pub data ClusterType : Type 0 where
  physical logical : ClusterType

pub data Source : Type 0 where
  provisioned discovered dsn manual : Source

-- `password` is no field of the type, but a patch that has one writes it.
pub record Node : Type 0 where
  pub id : String
  pub name : String
  pub host : String
  pub port : ℕ
  pub user : String
  pub password : Option String
  pub database : String
  pub cluster_type : ClusterType
  pub role : String
  pub source : Option Source

pub record Cluster : Type 0 where
  pub id : String
  pub name : String
  pub replication_type : ClusterType
  pub alert_threshold_sec : Option ℕ
  pub nodes : List Node

pub data ComponentType : Type 0 where
  collector analyzer storage custom : ComponentType

pub record Component : Type 0 where
  pub id : String
  pub name : String
  pub component_type : ComponentType
  pub linked_cluster_ids : List String

pub record Project : Type 0 where
  pub id : String
  pub name : String
  pub clusters : List Cluster
  pub components : List Component

pub record Workspace : Type 0 where
  pub projects : List Project
  pub selected_project_id : String
  pub selected_cluster_id : String

-- The connection settings that a new node takes over.
pub record Settings : Type 0 where
  pub host : String
  pub port : ℕ
  pub user : String
  pub database : String

-- What `updateClusterNode` is given: for a node, or for a cluster, which takes of it only its own
-- fields.
pub record Patch : Type 0 where
  pub name : Option String
  pub host : Option String
  pub port : Option ℕ
  pub user : Option String
  pub password : Option String
  pub database : Option String
  pub cluster_type : Option ClusterType
  pub role : Option String
  pub source : Option Source
  pub alert_threshold_sec : Option ℕ
