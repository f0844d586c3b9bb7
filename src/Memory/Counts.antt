-- ===== src/Memory/Counts.antt =====
-- The hits of the buffer table and of the heat map.
use learn_pg.Prelude.{
  ℕ, ◌+◌, ◌≡◌, refl, sym, ◌∙◌, ap, true, false, Option, none, some, List, [], ◌∷◌, inl, inr, arith,
  ◌==◌, string_eq, if◌then◌else◌, All, sum, Option-cases, Bool-cases, get_or, beq→eq,
}
use learn_pg.Prelude.Map.{get, values, weight, All-set, All-get, sum-set}
use learn_pg.Prelude.Number.{Number, number_eq, truthy}
use learn_pg.Prelude.Sort.{sum-sort_by}
use learn_pg.Events.{ProbeEvent, number_field}
use learn_pg.Visualization.Filters.{as_buffer_event}
use learn_pg.Visualization.Buffers.{build_buffer_cells}
use learn_pg.Visualization.Buffers.Counts.{hits, pins, pins_of, hits-build_buffer_cells}
use learn_pg.Memory.{
  BufferDescEntry, new_desc, pinned_desc, pin_at, pin_desc, pin_descs, build_buffer_desc_entries,
}

-- The hits that a row adds to buffer `j`.
abbrev pub desc_hits : Number → BufferDescEntry → ℕ
desc_hits j d = if d.buffer_id == j then d.hit_count else 0

abbrev Keyed : (Number × BufferDescEntry) → Type 0
Keyed p = p.1.buffer_id ≡ p.0

-- What the entry of `id` is before a pin.
before : Number → ProbeEvent → Option BufferDescEntry → BufferDescEntry
before id e o = get_or o (new_desc id e)

before-Keyed :
    (id : Number) (e : ProbeEvent) (m : List (Number × BufferDescEntry))
    → All Keyed m
    → (before id e (get id m)).buffer_id ≡ id
unfolding before new_desc
before-Keyed id e m h = elim (Option-cases (get id m)) [
  | inl p ↦ rw p refl
  | inr (d, p) ↦ rw p (All-get Keyed id m h p)
]

-- A pin adds one to the hits of its buffer.
hits-pinned_desc :
    (j id : Number) (e : ProbeEvent) (o : Option BufferDescEntry)
    → (before id e o).buffer_id ≡ id
    → desc_hits j (pinned_desc (before id e o))
      ≡ weight (desc_hits j) o + (if id == j then 1 else 0)
unfolding before new_desc
hits-pinned_desc j id e none h = ground arith
hits-pinned_desc j id e (some d) h = ground (arith, h)

pin_at-Keyed :
    (id : Number) (e : ProbeEvent) (m : List (Number × BufferDescEntry))
    → All Keyed m
    → All Keyed (pin_at id e m)
unfolding pin_at before
pin_at-Keyed id e m h =
    All-set Keyed id (pinned_desc (before id e (get id m))) m
      (λ j same. before-Keyed id e m h ∙ sym same) h

sum-pin_at :
    (j id : Number) (e : ProbeEvent) (m : List (Number × BufferDescEntry))
    → All Keyed m
    → sum (desc_hits j) (values (pin_at id e m))
      ≡ sum (desc_hits j) (values m) + (if id == j then 1 else 0)
unfolding pin_at before
sum-pin_at j id e m h =
    let new : BufferDescEntry = pinned_desc (before id e (get id m)) in
    omega (
      arith,
      sum-set (desc_hits j) id new m,
      hits-pinned_desc j id e (get id m) (before-Keyed id e m h),
    )

-- How many pins of buffer `j` the table counts for an event: none for the buffers 0 and NaN.
counted : Number → ProbeEvent → ℕ
counted j e = if truthy j then pins_of j (as_buffer_event e) else 0

-- `truthy j` where the event's buffer is `j`.
truthy-same : (id j : Number) → (id == j) ≡ true → truthy j ≡ truthy id
truthy-same id j h = ap truthy (sym (beq→eq id j h))

counted-pin :
    (j : Number) (e : ProbeEvent)
    → (e.type == "buffer_pin") ≡ true
    → counted j e ≡ (
        if truthy (number_field e "buffer_id")
        then if number_field e "buffer_id" == j then 1 else 0
        else 0)
unfolding counted as_buffer_event
counted-pin j e pin = elim (Bool-cases (number_field e "buffer_id" == j)) [
  | inl hit ↦ rw (pin, hit, truthy-same (number_field e "buffer_id") j hit) refl
  | inr miss ↦ rw (pin, miss) (ground arith)
]

counted-other : (j : Number) (e : ProbeEvent) → (e.type == "buffer_pin") ≡ false → counted j e ≡ 0
unfolding counted as_buffer_event
counted-other j e other = rw other (ground arith)

pin_desc-Keyed :
    (e : ProbeEvent) (m : List (Number × BufferDescEntry)) → All Keyed m → All Keyed (pin_desc e m)
unfolding pin_desc
pin_desc-Keyed e m h =
    let id : Number = number_field e "buffer_id" in
    elim (Bool-cases (e.type == "buffer_pin")) [
      | inl pin ↦ elim (Bool-cases (truthy id)) [
        | inl t ↦ rw (pin, t) (pin_at-Keyed id e m h)
        | inr f ↦ rw (pin, f) h
      ]
      | inr other ↦ rw other h
    ]

sum-pin_desc :
    (j : Number) (e : ProbeEvent) (m : List (Number × BufferDescEntry))
    → All Keyed m
    → sum (desc_hits j) (values (pin_desc e m)) ≡ sum (desc_hits j) (values m) + counted j e
unfolding pin_desc
sum-pin_desc j e m h =
    let id : Number = number_field e "buffer_id" in
    elim (Bool-cases (e.type == "buffer_pin")) [
      | inl pin ↦ elim (Bool-cases (truthy id)) [
        | inl t ↦ rw (pin, counted-pin j e pin, t) (sum-pin_at j id e m h)
        | inr f ↦ rw (pin, counted-pin j e pin, f) (omega arith)
      ]
      | inr other ↦ rw (other, counted-other j e other) (omega arith)
    ]

pin_descs-Keyed :
    (es : List ProbeEvent) (m : List (Number × BufferDescEntry))
    → All Keyed m
    → All Keyed (pin_descs es m)
unfolding pin_descs
pin_descs-Keyed [] m h = h
pin_descs-Keyed (e ∷ es) m h = pin_descs-Keyed es (pin_desc e m) (pin_desc-Keyed e m h)

sum-pin_descs :
    (j : Number) (es : List ProbeEvent) (m : List (Number × BufferDescEntry))
    → All Keyed m
    → sum (desc_hits j) (values (pin_descs es m))
      ≡ sum (desc_hits j) (values m) + sum (counted j) es
unfolding pin_descs
sum-pin_descs j [] m h = omega arith
sum-pin_descs j (e ∷ es) m h =
    omega (arith, sum-pin_desc j e m h, sum-pin_descs j es (pin_desc e m) (pin_desc-Keyed e m h))

sum-counted :
    (j : Number) (es : List ProbeEvent) → sum (counted j) es ≡ (if truthy j then pins j es else 0)
unfolding counted
sum-counted j [] = ground arith
sum-counted j (e ∷ es) = ground (arith, sum-counted j es)

-- The table of buffers and the heat map show the same hits for every buffer but 0 and NaN, which the
-- table leaves out.
pub hits-build_buffer_desc_entries :
    (j : Number) (es : List ProbeEvent)
    → sum (desc_hits j) (build_buffer_desc_entries es)
      ≡ (if truthy j then sum (hits j) (build_buffer_cells es) else 0)
unfolding build_buffer_desc_entries
hits-build_buffer_desc_entries j es =
    let all : sum (desc_hits j) (values (pin_descs es [])) ≡ sum (counted j) es =
      omega (arith, sum-pin_descs j es [] tt) in
    sum-sort_by (λ d. d.buffer_id) (desc_hits j) (values (pin_descs es []))
    ∙ all
    ∙ sum-counted j es
    ∙ ap (λ n. if truthy j then n else 0) (sym (hits-build_buffer_cells j es))
