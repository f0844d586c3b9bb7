-- ===== src/Visualization/Buffers/Counts.antt =====
-- How the heat map counts pins.
use learn_pg.Prelude.{
  ℕ, ◌+◌, ◌≤◌, ◌≡◌, refl, true, false, Option, none, some, List, [], ◌∷◌, inl, inr, arith, ◌==◌,
  if◌then◌else◌, All, sum, Option-cases,
}
use learn_pg.Prelude.Map.{
  get, values, weight, DistinctKeys, DistinctKeys-set, All-set, All-get, sum-set,
}
use learn_pg.Prelude.Number.{Number, number_eq}
use learn_pg.Prelude.Sort.{sum-sort_by}
use learn_pg.Events.{ProbeEvent, number_field}
use learn_pg.Visualization.Filters.{as_buffer_event}
use learn_pg.Visualization.Buffers.{BufferCell, pinned_cell, pin, pin_all, build_buffer_cells}

-- The hits that a cell adds to buffer `j`.
abbrev pub hits : Number → BufferCell → ℕ
hits j c = if c.buffer_id == j then c.hit_count else 0

abbrev pub pins_of : Number → Option ProbeEvent → ℕ
pins_of j none = 0
pins_of j (some b) = if number_field b "buffer_id" == j then 1 else 0

-- How many events pin buffer `j`.
abbrev pub pins : Number → List ProbeEvent → ℕ
pins j = sum (λ e. pins_of j (as_buffer_event e))

-- What every entry of the aggregate satisfies: its cell has the entry's key, has been hit, is pinned,
-- and is not dirty.
abbrev pub Entry : (Number × BufferCell) → Type 0
Entry p =
    (p.1.buffer_id ≡ p.0) × (1 ≤ p.1.hit_count) × (p.1.is_pinned ≡ true) × (p.1.is_dirty ≡ false)

abbrev IsEntry : Number → Option BufferCell → Type 0
IsEntry id none = Unit {0}
IsEntry id (some c) = Entry (id, c)

IsEntry-get : (id : Number) (m : List (Number × BufferCell)) → All Entry m → IsEntry id (get id m)
IsEntry-get id m h = elim (Option-cases (get id m)) [
  | inl e ↦ rw e tt
  | inr (c, e) ↦ rw e (All-get Entry id m h e)
]

pinned_cell-Entry :
    (id : Number) (e : ProbeEvent) (o : Option BufferCell)
    → IsEntry id o
    → Entry (id, pinned_cell id e o)
pinned_cell-Entry id e none h = (refl, omega arith, refl, refl)
pinned_cell-Entry id e (some c) h = (refl, omega arith, refl, h.3)

hits-pinned_cell :
    (j id : Number) (e : ProbeEvent) (o : Option BufferCell)
    → IsEntry id o
    → hits j (pinned_cell id e o) ≡ weight (hits j) o + (if id == j then 1 else 0)
hits-pinned_cell j id e none h = ground arith
hits-pinned_cell j id e (some c) h = ground (arith, h.0)

pin-Entry : (e : ProbeEvent) (m : List (Number × BufferCell)) → All Entry m → All Entry (pin e m)
unfolding pin
pin-Entry e m h = elim (Option-cases (as_buffer_event e)) [
  | inl p ↦ rw (p, pin) h
  | inr (b, p) ↦
      let id : Number = number_field b "buffer_id" in
      let fresh : Entry (id, pinned_cell id b (get id m)) =
        pinned_cell-Entry id b (get id m) (IsEntry-get id m h) in
      rw (p, pin) (All-set Entry id _ m (λ j q. rw q fresh) h)
]

pin-DistinctKeys :
    (e : ProbeEvent) (m : List (Number × BufferCell)) → DistinctKeys m → DistinctKeys (pin e m)
unfolding pin
pin-DistinctKeys e m h = elim (Option-cases (as_buffer_event e)) [
  | inl p ↦ rw (p, pin) h
  | inr (b, p) ↦ rw (p, pin) (DistinctKeys-set _ _ m h)
]

sum-pin :
    (j : Number) (e : ProbeEvent) (m : List (Number × BufferCell))
    → All Entry m
    → sum (hits j) (values (pin e m)) ≡ sum (hits j) (values m) + pins_of j (as_buffer_event e)
unfolding pin
sum-pin j e m h = elim (Option-cases (as_buffer_event e)) [
  | inl p ↦ rw (p, pin) (omega arith)
  | inr (b, p) ↦
      let id : Number = number_field b "buffer_id" in
      let old : Option BufferCell = get id m in
      rw (p, pin)
        (omega (
          arith,
          sum-set (hits j) id (pinned_cell id b old) m,
          hits-pinned_cell j id b old (IsEntry-get id m h),
        ))
]

pub pin_all-Entry :
    (es : List ProbeEvent) (m : List (Number × BufferCell)) → All Entry m → All Entry (pin_all es m)
unfolding pin_all
pin_all-Entry [] m h = h
pin_all-Entry (e ∷ es) m h = pin_all-Entry es (pin e m) (pin-Entry e m h)

pub pin_all-DistinctKeys :
    (es : List ProbeEvent) (m : List (Number × BufferCell))
    → DistinctKeys m
    → DistinctKeys (pin_all es m)
unfolding pin_all
pin_all-DistinctKeys [] m h = h
pin_all-DistinctKeys (e ∷ es) m h = pin_all-DistinctKeys es (pin e m) (pin-DistinctKeys e m h)

sum-pin_all :
    (j : Number) (es : List ProbeEvent) (m : List (Number × BufferCell))
    → All Entry m
    → sum (hits j) (values (pin_all es m)) ≡ sum (hits j) (values m) + pins j es
unfolding pin_all
sum-pin_all j [] m h = omega arith
sum-pin_all j (e ∷ es) m h =
    omega (arith, sum-pin j e m h, sum-pin_all j es (pin e m) (pin-Entry e m h))

-- The cells of buffer `j` together show exactly as many hits as there are `buffer_pin` events with
-- that buffer id.
pub hits-build_buffer_cells :
    (j : Number) (es : List ProbeEvent) → sum (hits j) (build_buffer_cells es) ≡ pins j es
unfolding build_buffer_cells
hits-build_buffer_cells j es = omega (
  arith,
  sum-sort_by (λ c. c.buffer_id) (hits j) (values (pin_all es [])),
  sum-pin_all j es [] tt,
)
