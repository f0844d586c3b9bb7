-- ===== src/Visualization/Summary.antt =====
-- `useVisualizationData` in frontend/src/hooks/useVisualizationData.ts.
use learn_pg.Prelude.{ℕ, Option, none, some, List, [], ◌∷◌, String, get_or, length}
use learn_pg.Events.{ProbeEvent, field}
use learn_pg.Visualization.Filters.{as_heartbeat_event, latest}
use learn_pg.Visualization.Buffers.{BufferCell, build_buffer_cells}
use learn_pg.Visualization.Transactions.{TransactionState, build_transaction_states, as_text}
use learn_pg.Visualization.Stages.{PipelineStage, build_write_stages}

pub record VisualizationData : Type 0 where
  pub buffers : List BufferCell
  pub collector_mode : String
  pub event_count : ℕ
  pub last_event_type : String
  pub transactions : List TransactionState
  pub write_stages : Option (List PipelineStage)

abbrev mode_of : Option ProbeEvent → String
mode_of none = "unknown"
mode_of (some e) = get_or (as_text (field e "mode")) "unknown"

abbrev pub last? {ℓ} : {A : Type ℓ} → List A → Option A
last? [] = none
last? (x ∷ xs) = some (get_or (last? xs) x)

abbrev type_of : Option ProbeEvent → String
type_of none = ""
type_of (some e) = e.type

unfoldable pub visualization_data : List ProbeEvent → VisualizationData
visualization_data events = record {
  buffers = build_buffer_cells events;
  collector_mode = mode_of (latest as_heartbeat_event events);
  event_count = length events;
  last_event_type = type_of (last? events);
  transactions = build_transaction_states events;
  write_stages = build_write_stages events;
}
