-- ===== src/Visualization/Stages.antt =====
-- `buildWriteStages` and `WRITE_STAGE_TEMPLATE` in frontend/src/hooks/useVisualizationData.ts, and the
-- type `PipelineStage` of frontend/src/components/pipeline/PipelineView.tsx.
pub mod Statuses
use learn_pg.Prelude.{
  ℕ, Bool, true, false, Option, none, some, List, [], ◌∷◌, String, ◌==◌, string_eq, if◌then◌else◌,
  map, is_some, ◌||◌, ◌&&◌, not,
}
use learn_pg.Prelude.Number.{Number}
use learn_pg.Events.{ProbeEvent, Value, text, field, number_field, text_field}
use learn_pg.Visualization.Filters.{as_wal_event, as_buffer_event, as_xact_event, latest}

pub data StageId : Type 0 where
  parse bind plan exec_start tuple_form buf_alloc wal_insert page_modify clog_update commit :
      StageId

pub data StageStatus : Type 0 where
  pending active done error : StageStatus

pub data Detail : Type 0 where
  text_detail : String → Detail
  number_detail : Number → Detail

pub record PipelineStage : Type 0 where
  pub id : StageId
  pub name : String
  pub label : String
  pub duration_us : ℕ
  pub start_us : ℕ
  pub end_us : ℕ
  pub status : StageStatus
  pub details : List (String × Detail)
  pub color : String

abbrev blank : StageId → String → String → String → PipelineStage
blank id name label color = record {
  id = id;
  name = name;
  label = label;
  duration_us = 0;
  start_us = 0;
  end_us = 0;
  status = pending;
  details = [];
  color = color;
}

unfoldable pub write_stage_template : List PipelineStage
write_stage_template =
    blank parse "Parser" "SQL 解析" "#58a6ff"
    ∷ blank bind "Binder" "参数绑定" "#bc8cff"
    ∷ blank plan "Planner" "执行计划" "#d29922"
    ∷ blank exec_start "ExecutorStart" "执行器启动" "#3fb950"
    ∷ blank tuple_form "heap_form_tuple" "元组构建" "#f0883e"
    ∷ blank buf_alloc "BufferAlloc" "Buffer 分配" "#f85149"
    ∷ blank wal_insert "XLogInsert" "WAL 写入" "#ff7b72"
    ∷ blank page_modify "PageAddItem" "数据页修改" "#a371f7"
    ∷ blank clog_update "TransactionLogUpdate" "CLOG 更新" "#7ee787"
    ∷ blank commit "Commit" "提交完成" "#39d353"
    ∷ []

abbrev number_of : ProbeEvent → String → String × Detail
number_of e k = (k, number_detail (number_field e k))

abbrev text_of : ProbeEvent → String → String × Detail
text_of e k = (k, text_detail (text_field e k))

-- `v === s`, for a text `s`.
abbrev is_text : Option Value → String → Bool
is_text (some (text t)) s = t == s
is_text _ s = false

abbrev exec_stage : Bool → PipelineStage → PipelineStage
exec_stage seen stage =
    if seen
    then record stage {
      status = done;
      details = ("source", text_detail "runtime event stream") ∷ [];
    }
    else stage

abbrev buffer_stage : Option ProbeEvent → PipelineStage → PipelineStage
buffer_stage none stage = stage
buffer_stage (some b) stage = record stage {
  status = done;
  details = number_of b "buffer_id" ∷ number_of b "relfilenode" ∷ number_of b "block_num" ∷ [];
}

abbrev wal_stage : Option ProbeEvent → PipelineStage → PipelineStage
wal_stage none stage = stage
wal_stage (some w) stage = record stage {
  status = done;
  details =
      text_of w "xlog_ptr"
      ∷ text_of w "rmgr_name"
      ∷ text_of w "operation"
      ∷ number_of w "xid"
      ∷ number_of w "record_len"
      ∷ text_of w "source"
      ∷ [];
}

unfoldable pub xact_stage : Option ProbeEvent → PipelineStage → PipelineStage
xact_stage none stage = stage
xact_stage (some x) stage =
    if is_text (field x "state") "commit"
    then record stage {
      status = done;
      details = number_of x "xid" ∷ text_of x "state" ∷ text_of x "lsn" ∷ [];
    }
    else if is_text (field x "state") "abort"
    then record stage { status = error; details = number_of x "xid" ∷ text_of x "state" ∷ [] }
    else stage

-- The `switch` over the stage's id.
unfoldable pub fill_stage :
    StageId
    → Option ProbeEvent
    → Option ProbeEvent
    → Option ProbeEvent
    → PipelineStage
    → PipelineStage
unfolding xact_stage
fill_stage exec_start wal buffer xact stage =
    exec_stage (is_some wal || is_some buffer || is_some xact) stage
fill_stage buf_alloc wal buffer xact stage = buffer_stage buffer stage
fill_stage wal_insert wal buffer xact stage = wal_stage wal stage
fill_stage clog_update wal buffer xact stage = xact_stage xact stage
fill_stage commit wal buffer xact stage = xact_stage xact stage
fill_stage _ wal buffer xact stage = stage

unfoldable pub fill_stages :
    Option ProbeEvent → Option ProbeEvent → Option ProbeEvent → Option (List PipelineStage)
unfolding fill_stage
fill_stages wal buffer xact =
    if not (is_some wal) && not (is_some buffer) && not (is_some xact)
    then none
    else some (map (λ stage. fill_stage stage.id wal buffer xact stage) write_stage_template)

unfoldable pub build_write_stages : List ProbeEvent → Option (List PipelineStage)
unfolding fill_stages
build_write_stages events =
    fill_stages (latest as_wal_event events) (latest as_buffer_event events)
      (latest as_xact_event events)
