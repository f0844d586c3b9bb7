-- ===== src/Visualization/Buffers.antt =====
-- `buildBufferCells` in frontend/src/hooks/useVisualizationData.ts.
pub mod Counts
pub mod Order
use learn_pg.Prelude.{ℕ, ◌+◌, Bool, true, false, Option, none, some, List, [], ◌∷◌, String, get_or}
use learn_pg.Prelude.Map.{get, set, values}
use learn_pg.Prelude.Number.{Number, num, number_eq}
use learn_pg.Prelude.Sort.{sort_by}
use learn_pg.Events.{ProbeEvent, Value, field, to_number, number_field}
use learn_pg.Visualization.Filters.{as_buffer_event}

pub record BufferCell : Type 0 where
  pub buffer_id : Number
  pub hit_count : ℕ
  pub is_dirty : Bool
  pub is_pinned : Bool
  pub relfilenode : Number

-- `Number(event.data.relfilenode ?? current?.relfilenode ?? 0)`
abbrev relfilenode_of : Option Value → Option BufferCell → Number
relfilenode_of (some v) current = to_number v
relfilenode_of none (some c) = c.relfilenode
relfilenode_of none none = num 0

abbrev hits_of : Option BufferCell → ℕ
hits_of none = 0
hits_of (some c) = c.hit_count

abbrev dirty_of : Option BufferCell → Bool
dirty_of none = false
dirty_of (some c) = c.is_dirty

abbrev pub pinned_cell : Number → ProbeEvent → Option BufferCell → BufferCell
pinned_cell id e current = record {
  buffer_id = id;
  hit_count = hits_of current + 1;
  is_dirty = dirty_of current;
  is_pinned = true;
  relfilenode = relfilenode_of (field e "relfilenode") current;
}

-- One round of the loop over the events.
unfoldable pub pin : ProbeEvent → List (Number × BufferCell) → List (Number × BufferCell)
pin e aggregate = elim (as_buffer_event e) [
  | none ↦ aggregate
  | some b ↦
      set (number_field b "buffer_id")
        (pinned_cell (number_field b "buffer_id") b (get (number_field b "buffer_id") aggregate))
        aggregate
]

unfoldable pub pin_all : List ProbeEvent → List (Number × BufferCell) → List (Number × BufferCell)
pin_all [] aggregate = aggregate
pin_all (e ∷ es) aggregate = pin_all es (pin e aggregate)

unfoldable pub build_buffer_cells : List ProbeEvent → List BufferCell
build_buffer_cells events = sort_by (λ c. c.buffer_id) (values (pin_all events []))
