-- ===== src/Memory.antt =====
-- The tables of frontend/src/components/memory/MemoryStructView.tsx: processes, transactions and buffers,
-- of the rows of a snapshot or of the events.
pub mod Counts
pub mod Latest
mod Tests
use learn_pg.Prelude.{
  ℕ, ◌+◌, Bool, true, false, Option, none, some, List, [], ◌∷◌, map, String, filter, get_or,
  if◌then◌else◌, ◌==◌, string_eq, nat_eq, ltb,
}
use learn_pg.Prelude.Map.{get, set, values}
use learn_pg.Prelude.Number.{Number, num, parse_number, gt, truthy, number_eq}
use learn_pg.Prelude.Sort.{sort_by}
use learn_pg.Events.{ProbeEvent, Value, text, field, number_field, text_field}
use learn_pg.LockGraph.{Row, number_of, column}
use learn_pg.Visualization.Transactions.{XactState, idle, started, in_progress, commit, abort}

pub record PgProcEntry : Type 0 where
  pub pid : Number
  pub xid : Number
  pub vxid : String
  pub state : XactState
  pub database : Number
  pub last_event_ts : ℕ
  pub wait_event : String

pub record PgXactEntry : Type 0 where
  pub xid : Number
  pub state : XactState
  pub xmin : Number
  pub commit_ts : ℕ

pub record BufferDescEntry : Type 0 where
  pub buffer_id : Number
  pub is_dirty : Bool
  pub is_pinned : Bool
  pub hit_count : ℕ
  pub relfilenode : Number
  pub block_num : Number

-- A text that names a member of every object, like `constructor`, is left out.
unfoldable pub to_xact_state : String → XactState
to_xact_state raw =
    if raw == "begin"
    then started
    else if raw == "commit"
    then commit
    else if raw == "abort"
    then abort
    else if raw == "savepoint"
    then in_progress
    else if raw == "release"
    then in_progress
    else if raw == "rollback_to"
    then in_progress
    else idle

unfoldable pub proc_of_row : Row → PgProcEntry
proc_of_row b = record {
  pid = number_of (get "pid" b);
  xid = number_of (get "backend_xid" b);
  vxid = "";
  state = if gt (number_of (get "backend_xid" b)) (num 0) then in_progress else idle;
  database = number_of (get "datid" b);
  last_event_ts = 0;
  wait_event = column "wait_event" "" b;
}

unfoldable pub build_proc_from_snapshot : List Row → List PgProcEntry
unfolding proc_of_row
build_proc_from_snapshot backends = filter (λ x. gt x.pid (num 0)) (map proc_of_row backends)

-- `if (!prev || evt.timestamp > prev.timestamp) latest.set(key, evt)`
abbrev pub is_newer : ProbeEvent → Option ProbeEvent → Bool
is_newer e none = true
is_newer e (some prev) = ltb prev.timestamp e.timestamp

-- One round of the loop over the events.
unfoldable pub keep_pid : ProbeEvent → List (ℕ × ProbeEvent) → List (ℕ × ProbeEvent)
keep_pid e latest =
    let kept = if is_newer e (get e.pid latest) then set e.pid e latest else latest in
    if e.type == "xact_state" then kept else latest

unfoldable pub latest_by_pid : List ProbeEvent → List (ℕ × ProbeEvent) → List (ℕ × ProbeEvent)
unfolding keep_pid
latest_by_pid [] latest = latest
latest_by_pid (e ∷ es) latest = latest_by_pid es (keep_pid e latest)

unfoldable pub proc_of_event : (ℕ × ProbeEvent) → PgProcEntry
unfolding to_xact_state
proc_of_event (pid, e) = record {
  pid = num pid;
  xid = number_field e "xid";
  vxid = text_field e "vxid";
  state = to_xact_state (text_field e "state");
  database = num 0;
  last_event_ts = e.timestamp;
  wait_event = "";
}

unfoldable pub build_proc_from_events : List ProbeEvent → List PgProcEntry
unfolding latest_by_pid proc_of_event
build_proc_from_events events = map proc_of_event (latest_by_pid events [])

-- `Number(b.backend_xmin ?? xid)`
abbrev xmin_of : Option String → Number → Number
xmin_of none xid = xid
xmin_of (some s) xid = parse_number s

unfoldable pub build_xact_from_snapshot : List Row → List PgXactEntry
build_xact_from_snapshot [] = []
build_xact_from_snapshot (b ∷ bs) =
    let rest = build_xact_from_snapshot bs in
    let xid = number_of (get "backend_xid" b) in
    if truthy xid
    then record {
      xid = xid;
      state = in_progress;
      xmin = xmin_of (get "backend_xmin" b) xid;
      commit_ts = 0;
    }
      ∷ rest
    else rest

unfoldable pub keep_xid : ProbeEvent → List (Number × ProbeEvent) → List (Number × ProbeEvent)
keep_xid e latest =
    let xid = number_field e "xid" in
    let kept = if is_newer e (get xid latest) then set xid e latest else latest in
    if e.type == "xact_state" then (if truthy xid then kept else latest) else latest

unfoldable pub latest_by_xid :
    List ProbeEvent → List (Number × ProbeEvent) → List (Number × ProbeEvent)
unfolding keep_xid
latest_by_xid [] latest = latest
latest_by_xid (e ∷ es) latest = latest_by_xid es (keep_xid e latest)

-- `d.state === 'commit'`
abbrev pub is_commit : Option Value → Bool
is_commit (some (text s)) = s == "commit"
is_commit _ = false

unfoldable pub xact_of_event : (Number × ProbeEvent) → PgXactEntry
unfolding to_xact_state
xact_of_event (xid, e) = record {
  xid = xid;
  state = to_xact_state (text_field e "state");
  xmin = xid;
  commit_ts = if is_commit (field e "state") then e.timestamp else 0;
}

unfoldable pub build_xact_from_events : List ProbeEvent → List PgXactEntry
unfolding latest_by_xid xact_of_event
build_xact_from_events events = map xact_of_event (latest_by_xid events [])

unfoldable pub new_desc : Number → ProbeEvent → BufferDescEntry
new_desc id e = record {
  buffer_id = id;
  is_dirty = false;
  is_pinned = false;
  hit_count = 0;
  relfilenode = number_field e "relfilenode";
  block_num = number_field e "block_num";
}

abbrev pub pinned_desc : BufferDescEntry → BufferDescEntry
pinned_desc prev = record prev { is_pinned = true; hit_count = prev.hit_count + 1 }

unfoldable pub pin_at :
    Number → ProbeEvent → List (Number × BufferDescEntry) → List (Number × BufferDescEntry)
unfolding new_desc
pin_at id e m = set id (pinned_desc (get_or (get id m) (new_desc id e))) m

unfoldable pub pin_desc :
    ProbeEvent → List (Number × BufferDescEntry) → List (Number × BufferDescEntry)
unfolding pin_at
pin_desc e m =
    let id = number_field e "buffer_id" in
    let pinned = pin_at id e m in
    if e.type == "buffer_pin" then (if truthy id then pinned else m) else m

unfoldable pub pin_descs :
    List ProbeEvent → List (Number × BufferDescEntry) → List (Number × BufferDescEntry)
unfolding pin_desc
pin_descs [] m = m
pin_descs (e ∷ es) m = pin_descs es (pin_desc e m)

unfoldable pub build_buffer_desc_entries : List ProbeEvent → List BufferDescEntry
unfolding pin_descs
build_buffer_desc_entries events = sort_by (λ d. d.buffer_id) (values (pin_descs events []))

abbrev pub or_else {ℓ} : {A : Type ℓ} → List A → List A → List A
or_else [] ys = ys
or_else (x ∷ xs) ys = x ∷ xs

-- What the page lists: the snapshot's rows where there are any, and else the events'.
pub record Tables : Type 0 where
  pub procs : List PgProcEntry
  pub xacts : List PgXactEntry
  pub bufs : List BufferDescEntry

unfoldable pub tables : List Row → List ProbeEvent → Tables
unfolding build_proc_from_snapshot build_proc_from_events build_xact_from_snapshot
    build_xact_from_events build_buffer_desc_entries
tables backends events = record {
  procs = or_else (build_proc_from_snapshot backends) (build_proc_from_events events);
  xacts = or_else (build_xact_from_snapshot backends) (build_xact_from_events events);
  bufs = build_buffer_desc_entries events;
}
