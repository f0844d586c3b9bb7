-- ===== src/Visualization/Buffers/Order.antt =====
-- Which buffers the heat map lists, and in which order.
use learn_pg.Prelude.{
  ◌≤◌, ◌≡◌, ap, sym, ◌∙◌, any, ltb, Bool, true, false, Option, none, some, List, [], ◌∷◌, inl, inr,
  arith, ◌==◌, All, sum, Option-cases,
}
use learn_pg.Prelude.Map.{values, DistinctKeys, All-set}
use learn_pg.Prelude.Number.{Number, number_eq}
use learn_pg.Prelude.Sort.{Rising, Rising-sort_by, Numeric, Different, is_num, All-sort_by}
use learn_pg.Events.{ProbeEvent, number_field}
use learn_pg.Visualization.Filters.{as_buffer_event}
use learn_pg.Visualization.Buffers.{BufferCell, pin, pin_all, build_buffer_cells}
use learn_pg.Visualization.Buffers.Counts.{
  Entry, hits, pins, pin_all-Entry, pin_all-DistinctKeys, hits-build_buffer_cells,
}

abbrev pub IsNumericPin : Option ProbeEvent → Type 0
IsNumericPin none = Unit {0}
IsNumericPin (some b) = is_num (number_field b "buffer_id") ≡ true

-- Every buffer id among the events is a number.
abbrev pub NumericIds : List ProbeEvent → Type 0
NumericIds = All (λ e. IsNumericPin (as_buffer_event e))

abbrev NumericKey : (Number × BufferCell) → Type 0
NumericKey p = is_num p.0 ≡ true

pin-NumericKey :
    (e : ProbeEvent) (m : List (Number × BufferCell))
    → IsNumericPin (as_buffer_event e)
    → All NumericKey m
    → All NumericKey (pin e m)
unfolding pin
pin-NumericKey e m n h = elim (Option-cases (as_buffer_event e)) [
  | inl p ↦ rw (p, pin) h
  | inr (b, p) ↦
      let num_id : is_num (number_field b "buffer_id") ≡ true = rw p at n in
      rw (p, pin) (All-set NumericKey _ _ m (λ j q. rw q num_id) h)
]

pin_all-NumericKey :
    (es : List ProbeEvent) (m : List (Number × BufferCell))
    → NumericIds es
    → All NumericKey m
    → All NumericKey (pin_all es m)
unfolding pin_all
pin_all-NumericKey [] m n h = h
pin_all-NumericKey (e ∷ es) m n h = pin_all-NumericKey es (pin e m) n.1 (pin-NumericKey e m n.0 h)

values-Numeric :
    (m : List (Number × BufferCell))
    → All Entry m
    → All NumericKey m
    → Numeric (λ c. c.buffer_id) (values m)
values-Numeric [] h n = tt
values-Numeric ((k, c) ∷ m) h n = (rw h.0.0 n.0, values-Numeric m h.1 n.1)

values-Misses :
    (k : Number) (c : BufferCell) (m : List (Number × BufferCell))
    → c.buffer_id ≡ k
    → All Entry m
    → All (λ q. (k == q.0) ≡ false) m
    → All (λ d. (c.buffer_id == d.buffer_id) ≡ false) (values m)
values-Misses k c [] e h d = tt
values-Misses k c ((j, b) ∷ m) e h d = (rw (e, h.0.0) d.0, values-Misses k c m e h.1 d.1)

values-Different :
    (m : List (Number × BufferCell))
    → All Entry m
    → DistinctKeys m
    → Different (λ c. c.buffer_id) (values m)
values-Different [] h d = tt
values-Different ((k, c) ∷ m) h d = (values-Misses k c m h.0.0 h.1 d.0, values-Different m h.1 d.1)

-- What holds of every cell that is shown.
abbrev pub IsShown : BufferCell → Type 0
IsShown c = (1 ≤ c.hit_count) × (c.is_pinned ≡ true) × (c.is_dirty ≡ false)

values-IsShown : (m : List (Number × BufferCell)) → All Entry m → All IsShown (values m)
values-IsShown [] h = tt
values-IsShown ((k, c) ∷ m) h = ((h.0.1, h.0.2, h.0.3), values-IsShown m h.1)

-- Whatever the events, every cell has at least one hit, is pinned, and is never dirty.
pub build_buffer_cells-IsShown : (es : List ProbeEvent) → All IsShown (build_buffer_cells es)
unfolding build_buffer_cells
build_buffer_cells-IsShown es =
    All-sort_by (λ c. c.buffer_id) IsShown _ (values-IsShown _ (pin_all-Entry es [] tt))

shown-hits :
    (j : Number) (cs : List BufferCell)
    → All IsShown cs
    → any (λ c. c.buffer_id == j) cs ≡ ltb 0 (sum (hits j) cs)
shown-hits j [] h = ground arith
shown-hits j (c ∷ cs) h = ground (arith, h.0.0, shown-hits j cs h.1)

-- Whether an event pins buffer `j`.
abbrev pub is_pinned_by : Number → Option ProbeEvent → Bool
is_pinned_by j none = false
is_pinned_by j (some b) = number_field b "buffer_id" == j

pinned-pins :
    (j : Number) (es : List ProbeEvent)
    → any (λ e. is_pinned_by j (as_buffer_event e)) es ≡ ltb 0 (pins j es)
pinned-pins j [] = ground arith
pinned-pins j (e ∷ es) = elim (Option-cases (as_buffer_event e)) [
  | inl other ↦ rw other (ground (arith, pinned-pins j es))
  | inr (b, pin) ↦ rw pin (ground (arith, pinned-pins j es))
]

-- Where every buffer id is a number, the cells are in strictly rising order of their ids, and a buffer
-- has a cell just where an event pins it: there is one cell for each buffer that is pinned.
pub build_buffer_cells-Rising :
    (es : List ProbeEvent)
    → NumericIds es
    → Rising (λ c. c.buffer_id) (build_buffer_cells es)
      × ((j : Number)
          → any (λ c. c.buffer_id == j) (build_buffer_cells es)
            ≡ any (λ e. is_pinned_by j (as_buffer_event e)) es)
unfolding build_buffer_cells
build_buffer_cells-Rising es n =
    let entries = pin_all-Entry es [] tt in
    (
      Rising-sort_by (λ c. c.buffer_id) (values (pin_all es []))
          (values-Numeric _ entries (pin_all-NumericKey es [] n tt))
          (values-Different _ entries (pin_all-DistinctKeys es [] tt)),
      λ j.
          shown-hits j (build_buffer_cells es) (build_buffer_cells-IsShown es)
          ∙ ap (ltb 0) (hits-build_buffer_cells j es)
          ∙ sym (pinned-pins j es),
    )
