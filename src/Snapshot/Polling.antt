-- ===== src/Snapshot/Polling.antt =====
-- `loadSnapshot` of frontend/src/App.tsx, which runs at once and every five seconds, and the labels of its
-- task bar.
use learn_pg.Prelude.{
  ℕ, zero, suc, ◌-◌, ◌/◌, Bool, true, false, Option, none, some, List, [], String, get_or,
  if◌then◌else◌, ◌==◌, string_eq,
}
use learn_pg.Prelude.Number.{Number, num}
use learn_pg.LockGraph.{Row, LockNode, LockEdge, build_lock_graph}
use learn_pg.Visualization.Transactions.{TransactionState}
use learn_pg.Provision.Backend.{Reply, rejected, refused, replied}
use learn_pg.Snapshot.{build_transactions_from_snapshot}

pub record SnapshotBody : Type 0 where
  pub current_xid : Option Number
  pub backends : Option (List Row)
  pub locks : Option (List Row)

pub record Shown : Type 0 where
  pub nodes : List LockNode
  pub edges : List LockEdge
  pub transactions : List TransactionState
  pub backends : List Row

abbrev pub nothing : Shown
nothing = record { nodes = []; edges = []; transactions = []; backends = [] }

abbrev pub shown_of : SnapshotBody → Shown
shown_of b =
    let g = build_lock_graph (get_or b.backends []) (get_or b.locks []) in
    record {
      nodes = g.nodes;
      edges = g.edges;
      transactions =
          build_transactions_from_snapshot (get_or b.backends []) (get_or b.current_xid (num 0));
      backends = get_or b.backends [];
    }

-- A failed request keeps what the last one has shown.
unfoldable pub load_snapshot : (connected stop : Bool) → Reply SnapshotBody → Shown → Shown
load_snapshot false stop reply s = if stop then s else nothing
load_snapshot true stop rejected s = s
load_snapshot true stop (refused status) s = s
load_snapshot true stop (replied b) s = if stop then s else shown_of b

unfoldable pub task_status_label : String → String
task_status_label status =
    if status == "running"
    then "进行中"
    else if status == "success"
    then "成功"
    else if status == "failed"
    then "失败"
    else status

-- A task that is not finished is measured up to `now`; a start of 0 counts as none.
unfoldable pub task_duration_sec : (now : ℕ) → (started_at finished_at : Option ℕ) → ℕ
task_duration_sec now none finished_at = 0
task_duration_sec now (some zero) finished_at = 0
task_duration_sec now (some (suc t)) finished_at = (get_or finished_at now - suc t) / 1_000
