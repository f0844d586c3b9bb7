-- ===== src/Visualization/Tests.antt =====
-- Tests of what the pages show, on a short stream of events.
use learn_pg.Prelude.{any, ◌==◌, get_or, ◌≡◌, refl, List, [], ◌∷◌, sum}
use learn_pg.Prelude.Number.{Number, number_eq, num, parse_number}
use learn_pg.Prelude.Sort.{Rising}
use learn_pg.Events.{ProbeEvent, number, text, number_field, text_field}
use learn_pg.Visualization.Filters.{latest, as_buffer_event, as_wal_event, as_xact_event}
use learn_pg.Visualization.Buffers.{build_buffer_cells}
use learn_pg.Visualization.Buffers.Counts.{hits, hits-build_buffer_cells}
use learn_pg.Visualization.Buffers.Order.{is_pinned_by, build_buffer_cells-Rising}
use learn_pg.Visualization.Transactions.{build_transaction_states, transaction_of}
use learn_pg.Visualization.Stages.{pending, done, error, build_write_stages, write_stage_template}
use learn_pg.Visualization.Stages.Statuses.{statuses, statuses-build_write_stages}

abbrev pin_7 : ProbeEvent
pin_7 = record {
  type = "buffer_pin";
  timestamp = 10;
  pid = 42;
  seq = 1;
  event_data = ("buffer_id", number 7) ∷ ("relfilenode", number 16384) ∷ [];
}

abbrev pin_3 : ProbeEvent
pin_3 = record {
  type = "buffer_pin";
  timestamp = 11;
  pid = 42;
  seq = 2;
  event_data = ("buffer_id", text "3") ∷ [];
}

abbrev aborted : ProbeEvent
aborted = record {
  type = "xact_state";
  timestamp = 12;
  pid = 42;
  seq = 3;
  event_data = ("xid", number 900) ∷ ("state", text "abort") ∷ [];
}

abbrev stream : List ProbeEvent
stream = pin_7 ∷ pin_3 ∷ aborted ∷ pin_7 ∷ []

hits-build_buffer_cells_example : sum (hits (num 7)) (build_buffer_cells stream) ≡ 2
unfolding as_buffer_event number_field parse_number
hits-build_buffer_cells_example = hits-build_buffer_cells (num 7) stream

build_buffer_cells-Rising_example :
    Rising (λ c. c.buffer_id) (build_buffer_cells stream)
    × ((j : Number)
        → any (λ c. c.buffer_id == j) (build_buffer_cells stream)
          ≡ any (λ e. is_pinned_by j (as_buffer_event e)) stream)
unfolding as_buffer_event number_field parse_number
build_buffer_cells-Rising_example =
    build_buffer_cells-Rising stream (refl, (refl, (tt, (refl, tt))))

statuses-build_write_stages_example :
    statuses (get_or (build_write_stages stream) [])
    ≡ pending ∷ pending ∷ pending ∷ done ∷ pending ∷ done ∷ pending ∷ pending ∷ error ∷ error ∷ []
unfolding build_write_stages latest as_buffer_event as_wal_event as_xact_event number_field
    text_field parse_number write_stage_template build_transaction_states transaction_of
statuses-build_write_stages_example =
    statuses-build_write_stages stream {stages = get_or (build_write_stages stream) []} refl
