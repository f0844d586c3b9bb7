-- ===== src/Telemetry/Vitals.antt =====
-- frontend/src/lib/webVitals.ts: Web Vitals, their ratings and batches. The module's variables and the
-- layout observer's `clsValue` are the record `Reporter`. Values are whole thousandths: of a
-- millisecond, and for CLS of its unit.
pub mod Ratings
pub mod History
use learn_pg.Prelude.{
  ℕ, ◌+◌, ◌-◌, Bool, true, false, Option, none, some, List, [], ◌∷◌, ◌++◌, String, get_or,
  if◌then◌else◌, leb, sum, not,
}
use learn_pg.Telemetry.Batch.{Batch, empty, push, fire, flush_now}

pub data VitalName : Type 0 where
  lcp fid cls inp ttfb : VitalName

pub data Rating : Type 0 where
  good needs_improvement poor : Rating

pub record VitalSample : Type 0 where
  pub name : VitalName
  pub value : ℕ
  pub rating : Rating
  pub id : String
  pub navigation_type : Option String

pub record VitalReporterOptions : Type 0 where
  pub endpoint : Option String
  pub enabled : Option Bool
  pub flush_delay_ms : Option ℕ

pub record VitalReporterConfig : Type 0 where
  pub endpoint : String
  pub enabled : Bool
  pub flush_delay_ms : ℕ

pub record Reporter : Type 0 where
  pub batch : Batch VitalSample
  pub active_config : VitalReporterConfig
  pub cls_value : ℕ

abbrev pub initial : Reporter
initial = record {
  batch = empty;
  active_config = record {
    endpoint = "/api/telemetry/vitals";
    enabled = true;
    flush_delay_ms = 5_000;
  };
  cls_value = 0;
}

abbrev pub thresholds : VitalName → ℕ × ℕ
thresholds lcp = (2_500_000, 4_000_000)
thresholds fid = (100_000, 300_000)
thresholds cls = (100, 250)
thresholds inp = (200_000, 500_000)
thresholds ttfb = (800_000, 1_800_000)

unfoldable pub rate : VitalName → ℕ → Rating
rate name value =
    if leb value (thresholds name).0
    then good
    else if leb value (thresholds name).1
    then needs_improvement
    else poor

-- `record(name, value, id, navigationType)`
unfoldable pub record_vital : ℕ → VitalName → ℕ → String → Option String → Reporter → Reporter
record_vital now name value id navigation_type s =
    if s.active_config.enabled
    then record s {
      batch =
          push s.active_config.flush_delay_ms now
            (record {
              name = name;
              value = value;
              rating = rate name value;
              id = id;
              navigation_type = navigation_type;
            })
            s.batch;
    }
    else s

unfoldable pub configure_vital_reporter : VitalReporterOptions → Reporter → Reporter
configure_vital_reporter o s = record s {
  active_config = record {
    endpoint = get_or o.endpoint "/api/telemetry/vitals";
    enabled = get_or o.enabled true;
    flush_delay_ms = get_or o.flush_delay_ms 5_000;
  };
}

-- The entries that the browser's observers are given.
pub record Navigation : Type 0 where
  pub response_start : ℕ
  pub request_start : ℕ
  pub name : String
  pub type : String

pub record PaintEntry : Type 0 where
  pub start_time : ℕ
  pub id : Option String

-- `processingStart` is never before `startTime`.
pub record InputEntry : Type 0 where
  pub start_time : ℕ
  pub processing_start : Option ℕ
  pub duration : ℕ
  pub entry_type : String

pub record ShiftEntry : Type 0 where
  pub had_recent_input : Bool
  pub value : ℕ

-- What `installWebVitals` does at once with the navigation entry, if there is one.
unfoldable pub on_navigation : ℕ → Option Navigation → Reporter → Reporter
unfolding record_vital
on_navigation now none s = s
on_navigation now (some nav) s =
    record_vital now ttfb (nav.response_start - nav.request_start) nav.name (some nav.type) s

-- The callback of the LCP observer reports the last entry.
unfoldable pub on_paint : ℕ → List PaintEntry → Reporter → Reporter
unfolding record_vital
on_paint now [] s = s
on_paint now (e ∷ []) s = record_vital now lcp e.start_time (get_or e.id "") none s
on_paint now (e ∷ f ∷ es) s = on_paint now (f ∷ es) s

abbrev pub input_entry : ℕ → InputEntry → Option ℕ → Reporter → Reporter
input_entry now e none s = s
input_entry now e (some processing_start) s =
    record_vital now inp e.duration e.entry_type none
      (record_vital now fid (processing_start - e.start_time) e.entry_type none s)

-- The callback of the observer of first inputs.
unfoldable pub on_first_input : ℕ → List InputEntry → Reporter → Reporter
unfolding record_vital
on_first_input now [] s = s
on_first_input now (e ∷ es) s = on_first_input now es (input_entry now e e.processing_start s)

abbrev pub shift_of : ShiftEntry → ℕ
shift_of e = if e.had_recent_input then 0 else e.value

-- The callback of the layout observer adds to `clsValue` and reports the sum.
unfoldable pub on_layout_shift : ℕ → List ShiftEntry → Reporter → Reporter
unfolding record_vital
on_layout_shift now es s =
    let total = s.cls_value + sum shift_of es in
    record_vital now cls total "" none (record s { cls_value = total })

pub data Action : Type 0 where
  navigation : Option Navigation → Action
  paint : List PaintEntry → Action
  first_input : List InputEntry → Action
  layout_shift : List ShiftEntry → Action
  configure : VitalReporterOptions → Action
  flushes : Action
  tick : Action

abbrev after_batch : Reporter → Batch VitalSample × List VitalSample → Reporter × List VitalSample
after_batch s (b, sent) = (record s { batch = b }, sent)

-- One action at a time, with the samples that are handed to the client, if any.
unfoldable pub step : ℕ → Action → Reporter → Reporter × List VitalSample
unfolding configure_vital_reporter
step now (navigation nav) s = (on_navigation now nav s, [])
step now (paint es) s = (on_paint now es s, [])
step now (first_input es) s = (on_first_input now es s, [])
step now (layout_shift es) s = (on_layout_shift now es s, [])
step now (configure o) s = (configure_vital_reporter o s, [])
step now flushes s = after_batch s (flush_now s.batch)
step now tick s = after_batch s (fire now s.batch)

unfoldable pub run : List (ℕ × Action) → Reporter → Reporter × List VitalSample
run [] s = (s, [])
run ((now, a) ∷ rest) s =
    let (s', sent) = step now a s in let (s'', more) = run rest s' in (s'', sent ++ more)
