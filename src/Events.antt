-- ===== src/Events.antt =====
-- frontend/src/types/events.ts: events of the collector, and the conversions applied to their data.
-- The field `data` of an event is `event_data` here; its values are scalars.
use learn_pg.Prelude.{ℕ, Bool, true, false, Option, none, some, List, String, show, get_or}
use learn_pg.Prelude.{string_eq}
use learn_pg.Prelude.Map.{get}
use learn_pg.Prelude.Number.{Number, num, parse_number}

-- A value of `Record<string, unknown>`.
pub data Value : Type 0 where
  null : Value
  bool : Bool → Value
  number : ℕ → Value
  text : String → Value

pub record ProbeEvent : Type 0 where
  pub type : String
  pub timestamp : ℕ
  pub pid : ℕ
  pub seq : ℕ
  pub event_data : List (String × Value)

-- `data.k`, with `null` and a missing key taken as one, as `??` takes them.
abbrev pub present : Option Value → Option Value
present none = none
present (some null) = none
present (some v) = some v

unfoldable pub field : ProbeEvent → String → Option Value
unfolding get
field e k = present (get k e.event_data)

-- `Number(v)`
abbrev pub to_number : Value → Number
to_number null = num 0
to_number (bool true) = num 1
to_number (bool false) = num 0
to_number (number n) = num n
to_number (text s) = parse_number s

-- `String(v)`
abbrev pub to_text : Value → String
to_text null = "null"
to_text (bool true) = "true"
to_text (bool false) = "false"
to_text (number n) = show n
to_text (text s) = s

-- `Number(event.data.k ?? 0)`
unfoldable pub number_field : ProbeEvent → String → Number
unfolding field
number_field e k = to_number (get_or (field e k) (number 0))

-- `String(event.data.k ?? '')`
unfoldable pub text_field : ProbeEvent → String → String
unfolding field
text_field e k = to_text (get_or (field e k) (text ""))
