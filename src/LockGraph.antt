-- ===== src/LockGraph.antt =====
-- `buildLockGraphFromSnapshot` of frontend/src/App.tsx, on the types of
-- frontend/src/components/lock/LockGraphView.tsx. A row of a snapshot maps column names to texts.
pub mod Direction
pub mod Cycles
mod Tests
use learn_pg.Prelude.{
  ℕ, ◌+◌, Bool, true, false, Option, none, some, List, [], ◌∷◌, ◌++◌, map, String, length, get_or,
  if◌then◌else◌, ◌==◌, string_eq, ◌++ₛ◌, show,
}
use learn_pg.Prelude.Map.{get, set}
use learn_pg.Prelude.Number.{Number, num, nan, parse_number}

abbrev pub Row : Type 0
Row = List (String × String)

pub data NodeType : Type 0 where
  backend lock : NodeType

pub record LockNode : Type 0 where
  pub id : String
  pub pid : Number
  pub label : String
  pub type : NodeType

pub record LockEdge : Type 0 where
  pub source : String
  pub target : String
  pub wait_time_us : ℕ
  pub mode : String

-- `${n}` and `String(n)`
abbrev pub number_text : Number → String
number_text nan = "NaN"
number_text (num n) = show n

abbrev pub number_of : Option String → Number
number_of none = num 0
number_of (some s) = parse_number s

abbrev pub pid_of : Row → Number
pid_of b = number_of (get "pid" b)

unfoldable pub backend_node : Row → LockNode
backend_node b = record {
  id = "pid-" ++ₛ number_text (pid_of b);
  pid = pid_of b;
  label = "PID " ++ₛ number_text (pid_of b);
  type = backend;
}

-- The loop over the backends as far as it fills `backendByPID`.
unfoldable pub by_pid : List Row → List (String × LockNode) → List (String × LockNode)
unfolding backend_node
by_pid [] m = m
by_pid (b ∷ bs) m = by_pid bs (set (number_text (pid_of b)) (backend_node b) m)

-- `l[k] ?? d`
abbrev pub column : String → String → Row → String
column k d l = get_or (get k l) d

unfoldable pub lock_key : Row → String
lock_key l =
    column "locktype" "" l
    ++ₛ "|"
    ++ₛ column "relation" "" l
    ++ₛ "|"
    ++ₛ column "virtualxid" "" l
    ++ₛ "|"
    ++ₛ column "transactionid" "" l
    ++ₛ "|"
    ++ₛ column "mode" "" l

-- `a || b`
abbrev pub or_text : String → String → String
or_text a b = if a == "" then b else a

unfoldable pub lock_label : Row → String
lock_label l =
    column "locktype" "lock" l
    ++ₛ ":"
    ++ₛ or_text (column "relation" "" l)
        (or_text (column "transactionid" "" l) (or_text (column "virtualxid" "" l) "-"))

unfoldable pub lock_node : Row → ℕ → LockNode
unfolding lock_label
lock_node l count = record {
  id = "lock-" ++ₛ show (count + 1);
  pid = num 0;
  label = lock_label l;
  type = lock;
}

-- The variables of the loop over the locks.
pub record Graph : Type 0 where
  pub nodes : List LockNode
  pub edges : List LockEdge
  pub by_key : List (String × LockNode)

abbrev pub with_lock : Row → Option LockNode → Graph → Graph
with_lock l (some n) g = g
with_lock l none g = record g {
  nodes = g.nodes ++ lock_node l (length g.by_key) ∷ [];
  by_key = set (lock_key l) (lock_node l (length g.by_key)) g.by_key;
}

abbrev pub wait_time : Row → ℕ
wait_time l = if column "granted" "" l == "false" then 100_000 else 0

abbrev pub with_edge : Row → Option LockNode → Option LockNode → Graph → Graph
with_edge l (some b) (some n) g = record g {
  edges =
      g.edges
      ++ record {
        source = b.id;
        target = n.id;
        wait_time_us = wait_time l;
        mode = column "mode" "unknown" l;
      }
        ∷ [];
}
with_edge l _ _ g = g

-- One round of the loop over the locks.
unfoldable pub add_lock : List (String × LockNode) → Row → Graph → Graph
unfolding lock_key lock_node
add_lock backends l g =
    let held : Graph = with_lock l (get (lock_key l) g.by_key) g in
    with_edge l (get (column "pid" "" l) backends) (get (lock_key l) held.by_key) held

unfoldable pub add_locks : List (String × LockNode) → List Row → Graph → Graph
unfolding add_lock
add_locks backends [] g = g
add_locks backends (l ∷ ls) g = add_locks backends ls (add_lock backends l g)

unfoldable pub build_lock_graph : (backends locks : List Row) → Graph
unfolding by_pid add_locks backend_node
build_lock_graph backends locks =
    add_locks (by_pid backends []) locks
      (record { nodes = map backend_node backends; edges = []; by_key = [] })
