-- ===== src/ClusterHome.antt =====
-- frontend/src/components/workspace/ClusterHomeView.tsx: what the page computes of a cluster and of the
-- states of its nodes, of which the types keep the members used here. Letters are those of ASCII.
pub mod Edges
pub mod Detail
pub mod Topology
pub mod Imports
pub mod Editing
mod Tests
use learn_pg.Prelude.{
  ℕ, ◌+◌, ◌-◌, ◌*◌, Bool, true, false, ◌||◌, ◌&&◌, not, Option, none, some, List, [], ◌∷◌, map,
  String, length, head?, filter, find, any, sum, get_or, if◌then◌else◌, ◌==◌, string_eq, nat_eq,
  leb,
}
use learn_pg.Prelude.Number.{codes}
use learn_pg.Api.Url.{lower}
use learn_pg.Workspace.Types.{
  ClusterType, physical, logical, Source, provisioned, discovered, dsn, manual, Node, Cluster,
  Project,
}
use learn_pg.Provision.Backend.{text_or}
use learn_pg.ClusterHome.Edges.{edge_key, split_key}

pub record Channel : Type 0 where
  pub name : String
  pub state : String
  pub sync_state : String
  pub lag_bytes : Option ℕ

pub record Subscription : Type 0 where
  pub name : String
  pub enabled : Bool
  pub worker_type : Option String

pub record NodeStatus : Type 0 where
  pub id : String
  pub connected : Bool
  pub physical_replication : Option (List Channel)
  pub subscriptions : Option (List Subscription)

abbrev found_or_first : Option Cluster → List Cluster → Option Cluster
found_or_first none cs = head? cs
found_or_first (some c) cs = some c

-- `cluster`
unfoldable pub shown_cluster : Option Project → String → Option Cluster
shown_cluster none id = none
shown_cluster (some p) id = found_or_first (find (λ c. c.id == id) p.clusters) p.clusters

unfoldable pub alert_threshold_bytes : Option Cluster → ℕ
alert_threshold_bytes none = 30 * 1_024 * 1_024
alert_threshold_bytes (some c) = get_or c.alert_threshold_sec 30 * 1_024 * 1_024

unfoldable pub cluster_statuses : Option Cluster → List NodeStatus → List NodeStatus
cluster_statuses none statuses = []
cluster_statuses (some c) statuses = filter (λ s. any (λ n. n.id == s.id) c.nodes) statuses

pub record Summary : Type 0 where
  pub total_clusters : ℕ
  pub total_nodes : ℕ
  pub connected_nodes : ℕ
  pub unhealthy_nodes : ℕ
  pub primary_count : ℕ
  pub standby_count : ℕ

abbrev clusters_in : Option Project → List Cluster
clusters_in none = []
clusters_in (some p) = p.clusters

abbrev pub nodes_in : Option Cluster → List Node
nodes_in none = []
nodes_in (some c) = c.nodes

abbrev pub primaries : Option Cluster → List Node
primaries c = filter (λ n. n.role == "primary") (nodes_in c)

unfoldable pub summary : Option Project → Option Cluster → List NodeStatus → Summary
summary project cluster statuses = record {
  total_clusters = length (clusters_in project);
  total_nodes = sum (λ c. length c.nodes) (clusters_in project);
  connected_nodes = length (filter (λ s. s.connected) statuses);
  unhealthy_nodes = length (filter (λ s. not s.connected) statuses);
  primary_count = length (primaries cluster);
  standby_count = length (nodes_in cluster) - length (primaries cluster);
}

pub record EdgeInfo : Type 0 where
  pub from : String
  pub to : String
  pub label : String

abbrev pub found_or_head : Option Node → List Node → Option Node
found_or_head none ns = head? ns
found_or_head (some n) ns = some n

abbrev pub leader_role : ClusterType → String
leader_role physical = "primary"
leader_role logical = "publisher"

abbrev pub edge_label : ClusterType → String
edge_label physical = "WAL"
edge_label logical = "LOGICAL"

-- The node that the edges start from: `nodes.find((n) => n.role === role) ?? nodes[0]`.
abbrev pub leader : Cluster → Option Node
leader c = found_or_head (find (λ n. n.role == leader_role c.replication_type) c.nodes) c.nodes

abbrev pub edges_from : Option Node → Cluster → List EdgeInfo
edges_from none c = []
edges_from (some l) c =
    map (λ n. record { from = l.id; to = n.id; label = edge_label c.replication_type })
      (filter (λ n. not (n.id == l.id)) c.nodes)

unfoldable pub topology_edges : Option Cluster → List EdgeInfo
topology_edges none = []
topology_edges (some c) = edges_from (leader c) c

-- `n.source ?? 'manual'`
abbrev source_or_manual : Option Source → Source
source_or_manual none = manual
source_or_manual (some s) = s

abbrev same_source : Source → Source → Bool
same_source provisioned provisioned = true
same_source discovered discovered = true
same_source dsn dsn = true
same_source manual manual = true
same_source _ _ = false

-- `filteredNodes`; the filter `all` is none.
unfoldable pub filtered_nodes : Option Cluster → Option Source → List Node
filtered_nodes c none = nodes_in c
filtered_nodes c (some source) =
    filter (λ n. same_source (source_or_manual n.source) source) (nodes_in c)
