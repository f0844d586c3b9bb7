-- ===== src/ClusterHome/Tests.antt =====
-- Tests of the cluster page.
use learn_pg.Prelude.{
  Bool, length, ◌≤◌, arith, ◌≡◌, refl, false, true, none, some, Option, List, [], ◌∷◌, All, map,
  String, string_eq,
}
use learn_pg.Workspace.Types.{Cluster, physical, Node}
use learn_pg.ClusterHome.{NodeStatus, topology_edges, alert_threshold_bytes}
use learn_pg.ClusterHome.Edges.{edge_key, split_key, before_arrow, after_arrow}
use learn_pg.ClusterHome.Detail.{selected_edge_detail, detail_between, pick_channel, contains}
use learn_pg.ClusterHome.Topology.{IsDetailed, topology_edges-IsDetailed}
use learn_pg.ClusterHome.Imports.{
  Adding, threw, replied, ValidateBody, ImportBody, settle_dsn, outcome, add_log, Event, dsn_begins,
  dsn_settles, step, run,
}
use learn_pg.ClusterHome.Imports.Outcomes.{verdict, newest_level, level_for, run-reloads}

abbrev node : (id name role : String) → Node
node id name role = record {
  id = id;
  name = name;
  host = "localhost";
  port = 5_432;
  user = "postgres";
  database = "postgres";
  cluster_type = physical;
  password = none;
  role = role;
  source = Option.none;
}

abbrev cluster : Cluster
cluster = record {
  id = "c";
  name = "c";
  replication_type = physical;
  alert_threshold_sec = some 1;
  nodes = node "a-" "A" "standby" ∷ node "b" "B" "primary" ∷ node "c" "C" "standby" ∷ [];
}

-- The primary is not the first node.
abbrev statuses : List NodeStatus
statuses =
    record {
      id = "b";
      connected = true;
      physical_replication = some (
          record {
            name = "to_a";
            state = "streaming";
            sync_state = "async";
            lag_bytes = some 1_048_576;
          }
          ∷ []);
      subscriptions = Option.none;
    }
    ∷ []

edges_of_cluster :
    map (λ e. edge_key e.from e.to) (topology_edges (some cluster)) ≡ "b->a-" ∷ "b->c" ∷ []
unfolding topology_edges edge_key
edges_of_cluster = refl

topology_edges-IsDetailed_example :
    All (IsDetailed cluster statuses) (topology_edges (some cluster))
topology_edges-IsDetailed_example =
    topology_edges-IsDetailed cluster statuses ((refl, (refl, tt)), ((refl, tt), ((refl, tt), tt)))

detail_of_edge :
    selected_edge_detail (some cluster) statuses "b->a-"
    ≡ some record {
      mode = "物理复制";
      from = "B";
      to = "A";
      state = "streaming";
      sync_state = "async";
      lag_bytes = 1_048_576;
      is_alert = true;
    }
unfolding selected_edge_detail detail_between split_key before_arrow after_arrow pick_channel
    contains alert_threshold_bytes
detail_of_edge = refl

abbrev adding : Adding
adding = record {
  scan_host = "127.0.0.1";
  scan_port = 5_432;
  scan_loading = false;
  scan_error = "";
  instances = [];
  dsn = "postgres://x";
  dsn_loading = true;
  dsn_message = "";
  highlight_node_id = "";
  import_logs = [];
  reloads = 0;
}

abbrev reachable : ValidateBody
reachable = record {
  reply = record { success = true; error = Option.none };
  reachable = true;
  version = some "16";
}

abbrev added : ImportBody
added = record { reply = record { success = true; error = Option.none }; node_id = some "n" }

-- Two imports of the DSN overlap: the second request of the first one fails.
abbrev clicks : List Event
clicks =
    dsn_begins 4
    ∷ dsn_begins 5
    ∷ dsn_settles 6 (replied 200 reachable) (threw "Failed to fetch")
    ∷ dsn_settles 7 (replied 200 reachable) (replied 201 added)
    ∷ []

run-reloads_example :
    ((run clicks adding).reloads ≡ 1)
    × (length (run clicks adding).import_logs ≤ 20)
    × ((e : Event) (b : Bool)
        → verdict e ≡ some b
        → newest_level (step e (run clicks adding)) ≡ level_for b)
run-reloads_example = run-reloads clicks adding (omega arith)

log_of_failure :
    map
      (λ l. l.message)
      (settle_dsn 5 (replied 200 reachable) (threw "Failed to fetch") adding).import_logs
    ≡ "导入失败：Failed to fetch" ∷ "DSN 校验通过，版本 16" ∷ []
unfolding settle_dsn outcome add_log
log_of_failure = refl
