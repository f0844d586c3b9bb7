-- ===== src/ClusterHome/Imports.antt =====
-- The handlers of frontend/src/components/workspace/ClusterHomeView.tsx that find and import nodes, and the
-- load of the cluster's overview. A handler is split at its first `await`: `begin_…` is what it does before,
-- `settle_…` what it does with the answers. The time is an argument.
pub mod Outcomes
use learn_pg.Prelude.{
  ℕ, ◌+◌, Bool, true, false, ◌&&◌, Option, none, some, List, [], ◌∷◌, String, length, take, get_or,
  if◌then◌else◌, ◌==◌, string_eq, nat_eq, ◌++ₛ◌, show, leb,
}
use learn_pg.Workspace.Templates.{trim_start, trim_end}
use learn_pg.Provision.Backend.{text_or, is_given}
use learn_pg.ClusterHome.{NodeStatus}

-- How a request ends: `fetch` or `res.json()` throws an error, or a body is read, whatever the status.
pub data Answer {ℓ} (A : Type ℓ) : Type ℓ where
  threw : (message : String) → Answer A
  replied : (status : ℕ) → A → Answer A

-- The block of `try`: it throws an error or goes on with the body.
pub data Outcome {ℓ} (A : Type ℓ) : Type ℓ where
  failed : (message : String) → Outcome A
  succeeded : A → Outcome A

pub record Reply : Type 0 where
  pub success : Bool
  pub error : Option String

-- `if (!res.ok || !data.success) throw new Error(data.error || message)`
unfoldable pub outcome : {A : Type 0} → (A → Reply) → (ℕ → String) → Answer A → Outcome A
outcome reply message (threw m) = failed m
outcome reply message (replied status body) =
    if leb 200 status && leb status 299 && (reply body).success
    then succeeded body
    else failed (text_or (reply body).error (message status))

abbrev pub status_text : ℕ → String
status_text status = "HTTP " ++ₛ show status

pub record Instance : Type 0 where
  pub host : String
  pub port : ℕ

pub record Log : Type 0 where
  pub ts : ℕ
  pub level : String
  pub message : String

-- The state of the tab that adds nodes; `reloads` counts the calls of `onReloadWorkspace`.
pub record Adding : Type 0 where
  pub scan_host : String
  pub scan_port : ℕ
  pub scan_loading : Bool
  pub scan_error : String
  pub instances : List Instance
  pub dsn : String
  pub dsn_loading : Bool
  pub dsn_message : String
  pub highlight_node_id : String
  pub import_logs : List Log
  pub reloads : ℕ

unfoldable pub add_log : ℕ → (level message : String) → Adding → Adding
add_log now level message s = record s {
  import_logs = take 20 (record { ts = now; level = level; message = message } ∷ s.import_logs);
}

abbrev pub trimmed : String → String
trimmed s = trim_end (trim_start s)

-- `runHostScan`
unfoldable pub begin_scan : ℕ → Adding → Adding
unfolding add_log
begin_scan now s =
    add_log now "info"
      ("开始探测主机 " ++ₛ text_or (some (trimmed s.scan_host)) "-" ++ₛ "端口 " ++ₛ show s.scan_port)
      (record s { scan_loading = true; scan_error = "" })

pub record ScanBody : Type 0 where
  pub reply : Reply
  pub instances : Option (List Instance)

abbrev pub scanned : ℕ → Outcome ScanBody → Adding → Adding
scanned now (failed m) s = add_log now "error" ("主机探测失败：" ++ₛ m) (record s { scan_error = m })
scanned now (succeeded b) s =
    add_log now "success" ("发现 " ++ₛ show (length (get_or b.instances [])) ++ₛ " 个候选实例")
      (record s { instances = get_or b.instances [] })

unfoldable pub settle_scan : ℕ → Answer ScanBody → Adding → Adding
unfolding outcome
settle_scan now answer s = record (scanned now (outcome (λ b. b.reply) status_text answer) s) {
  scan_loading = false;
}

pub record ImportBody : Type 0 where
  pub reply : Reply
  pub node_id : Option String

-- `if (data.nodeId) setHighlightNodeId(data.nodeId)`
abbrev pub highlight : Option String → Adding → Adding
highlight id s = if is_given id then record s { highlight_node_id = get_or id "" } else s

abbrev pub place : Instance → String
place i = i.host ++ₛ ":" ++ₛ show i.port

-- `importDiscovered`, where there are a project and a cluster.
unfoldable pub begin_import : ℕ → Instance → Adding → Adding
unfolding add_log
begin_import now i s = add_log now "info" ("开始导入 " ++ₛ place i) s

abbrev pub imported : ℕ → Instance → Outcome ImportBody → Adding → Adding
imported now i (failed m) s = add_log now "error" ("导入失败：" ++ₛ m) (record s { scan_error = m })
imported now i (succeeded b) s =
    highlight b.node_id
      (add_log now "success" ("导入成功 " ++ₛ place i) (record s { reloads = s.reloads + 1 }))

unfoldable pub settle_import : ℕ → Instance → Answer ImportBody → Adding → Adding
unfolding outcome
settle_import now i answer s = imported now i (outcome (λ b. b.reply) status_text answer) s

pub record ValidateBody : Type 0 where
  pub reply : Reply
  pub reachable : Bool
  pub version : Option String

-- The server must also be reachable.
abbrev pub reached : ValidateBody → Reply
reached b = record { success = b.reply.success && b.reachable; error = b.reply.error }

-- `validateAndImportDSN`, where there are a project and a cluster; an empty DSN does nothing.
unfoldable pub begin_dsn : ℕ → Adding → Adding
unfolding add_log
begin_dsn now s =
    if trimmed s.dsn == ""
    then s
    else add_log now "info" "校验 DSN" (record s { dsn_loading = true; dsn_message = "" })

abbrev pub dsn_failed : ℕ → String → Adding → Adding
dsn_failed now m s = add_log now "error" ("导入失败：" ++ₛ m) (record s { dsn_message = m })

abbrev pub dsn_imported : ℕ → (version : Option String) → Outcome ImportBody → Adding → Adding
dsn_imported now version (failed m) s = dsn_failed now m s
dsn_imported now version (succeeded b) s = highlight b.node_id (
    add_log now "success" "DSN 导入成功"
      (record s { dsn_message = "导入成功，版本 " ++ₛ text_or version "-"; reloads = s.reloads + 1 }))

abbrev pub dsn_validated : ℕ → Outcome ValidateBody → Outcome ImportBody → Adding → Adding
dsn_validated now (failed m) imp s = dsn_failed now m s
dsn_validated now (succeeded v) imp s =
    dsn_imported now v.version imp
      (add_log now "success" ("DSN 校验通过，版本 " ++ₛ text_or v.version "-") s)

-- The second answer is only asked for where the first is a success.
unfoldable pub settle_dsn : ℕ → Answer ValidateBody → Answer ImportBody → Adding → Adding
unfolding outcome
settle_dsn now val imp s =
    record (dsn_validated now (outcome reached (λ status. "DSN 校验失败") val)
      (outcome (λ b. b.reply) (λ status. "DSN 导入失败") imp) s) { dsn_loading = false }

-- What happens on the tab: a handler begins, or its answers are there. Handlers may overlap;
-- the two answers for one DSN are taken together.
pub data Event : Type 0 where
  scan_begins : (now : ℕ) → Event
  scan_settles : (now : ℕ) → Answer ScanBody → Event
  import_begins : (now : ℕ) → Instance → Event
  import_settles : (now : ℕ) → Instance → Answer ImportBody → Event
  dsn_begins : (now : ℕ) → Event
  dsn_settles : (now : ℕ) → Answer ValidateBody → Answer ImportBody → Event

unfoldable pub step : Event → Adding → Adding
unfolding begin_scan settle_scan begin_import settle_import begin_dsn settle_dsn
step (scan_begins now) s = begin_scan now s
step (scan_settles now answer) s = settle_scan now answer s
step (import_begins now i) s = begin_import now i s
step (import_settles now i answer) s = settle_import now i answer s
step (dsn_begins now) s = begin_dsn now s
step (dsn_settles now val imp) s = settle_dsn now val imp s

unfoldable pub run : List Event → Adding → Adding
unfolding step
run [] s = s
run (e ∷ es) s = run es (step e s)

pub record Overview : Type 0 where
  pub loading : Bool
  pub error : String
  pub nodes : List NodeStatus
  pub timestamp : ℕ

pub record OverviewBody : Type 0 where
  pub reply : Reply
  pub nodes : Option (List NodeStatus)
  pub timestamp : Option ℕ

abbrev pub overview_failed : String → Overview
overview_failed m = record { loading = false; error = m; nodes = []; timestamp = 0 }

abbrev time_or : Option ℕ → ℕ → ℕ
time_or none now = now
time_or (some t) now = if t == 0 then now else t

-- `loadOverview`, where there are a project and a cluster.
unfoldable pub settle_overview : ℕ → Answer OverviewBody → Overview
settle_overview now (threw m) = overview_failed m
settle_overview now (replied status b) =
    if leb 200 status && leb status 299
    then if b.reply.success
      then record {
        loading = false;
        error = "";
        nodes = get_or b.nodes [];
        timestamp = time_or b.timestamp now;
      }
      else overview_failed (text_or b.reply.error "获取集群状态失败")
    else overview_failed (status_text status)
