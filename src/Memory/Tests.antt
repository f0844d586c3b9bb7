-- ===== src/Memory/Tests.antt =====
-- Tests of the memory tables.
use learn_pg.Prelude.{ℕ, String, ◌-◌, ◌≡◌, refl, none, some, List, [], ◌∷◌, map, find, sum, ◌==◌}
use learn_pg.Prelude.Map.{get}
use learn_pg.Prelude.Number.{num, number_eq, parse_number}
use learn_pg.Events.{ProbeEvent, number, text}
use learn_pg.Visualization.Buffers.{build_buffer_cells}
use learn_pg.Visualization.Buffers.Counts.{hits}
use learn_pg.Memory.{tables, build_proc_from_snapshot, build_buffer_desc_entries, proc_of_row}
use learn_pg.Memory.Counts.{desc_hits, hits-build_buffer_desc_entries}
use learn_pg.Memory.Latest.{newest, row_of, find-tables}

abbrev event : (type : String) → (timestamp seq : ℕ) → (state : String) → ProbeEvent
event type timestamp seq state = record {
  type = type;
  timestamp = timestamp;
  pid = 42;
  seq = seq;
  event_data = ("xid", number 900) ∷ ("state", text state) ∷ ("buffer_id", number (seq - 1)) ∷ [];
}

-- The second and the third event have the same time.
abbrev stream : List ProbeEvent
stream =
    event "xact_state" 5 1 "begin"
    ∷ event "xact_state" 9 2 "savepoint"
    ∷ event "xact_state" 9 3 "commit"
    ∷ event "buffer_pin" 9 1 ""
    ∷ event "buffer_pin" 9 4 ""
    ∷ []

-- A backend without a process id leaves the table to the events.
find-tables_example :
    find (λ r. r.pid == num 42) (tables ([] ∷ []) stream).procs
    ≡ row_of 42 (some (event "xact_state" 9 2 "savepoint"))
unfolding newest get
find-tables_example = find-tables 42 ([] ∷ []) stream

-- A snapshot of another process hides the events of this one.
hidden_events : find (λ r. r.pid == num 42) (tables ((("pid", "7") ∷ []) ∷ []) stream).procs ≡ none
unfolding tables proc_of_row parse_number get
hidden_events = refl

hits-build_buffer_desc_entries_example :
    sum (desc_hits (num 3)) (build_buffer_desc_entries stream)
    ≡ sum (hits (num 3)) (build_buffer_cells stream)
hits-build_buffer_desc_entries_example = hits-build_buffer_desc_entries (num 3) stream

-- A row without a process is left out.
pids_of_rows :
    map (λ r. r.pid) (build_proc_from_snapshot ((("pid", "7") ∷ []) ∷ [] ∷ [])) ≡ num 7 ∷ []
unfolding build_proc_from_snapshot proc_of_row parse_number get
pids_of_rows = refl
