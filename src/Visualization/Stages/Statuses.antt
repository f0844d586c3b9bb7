-- ===== src/Visualization/Stages/Statuses.antt =====
-- The write pipeline against the transaction page.
use learn_pg.Prelude.{
  ◌≡◌, refl, ◌∙◌, sym, Bool, true, false, Option, none, some, List, [], ◌∷◌, String, inl, inr,
  arith, ◌==◌, string_eq, if◌then◌else◌, map, is_some, Bool-cases, get_or, show, IsDigitText,
  show-IsDigitText, beq-ne, beq→eq, subst, ap, ap₂,
}
use mathlib.Core.Option.{some-injective}
use learn_pg.Events.{ProbeEvent, Value, null, bool, number, text, field, to_text, text_field}
use learn_pg.Visualization.Filters.{as_wal_event, as_buffer_event, as_xact_event, latest}
use learn_pg.Visualization.Transactions.{
  XactState, TransactionState, transaction_state_of, transaction_of, build_transaction_states,
}
use learn_pg.Visualization.Summary.{last?}
use learn_pg.Visualization.Stages.{
  PipelineStage, StageStatus, pending, done, error, is_text, xact_stage, fill_stages,
  build_write_stages, write_stage_template,
}

abbrev pub transaction_state? : Option TransactionState → Option XactState
transaction_state? none = none
transaction_state? (some t) = some t.state

abbrev pub of_event : Option ProbeEvent → Option TransactionState
of_event none = none
of_event (some e) = some (transaction_of e)

xact_self : (e : ProbeEvent) {x : ProbeEvent} → as_xact_event e ≡ some x → x ≡ e
unfolding as_xact_event
xact_self e h = ground arith

last-cons :
    (e : ProbeEvent) (es : List ProbeEvent)
    → last? (build_transaction_states es) ≡ of_event (latest as_xact_event es)
    → last? (build_transaction_states (e ∷ es)) ≡ of_event (latest as_xact_event (e ∷ es))
unfolding build_transaction_states latest
last-cons e es ih = ground (arith, ih)

-- The last entry of the transaction page is made from the latest `xact_state` event.
pub last-build_transaction_states :
    (es : List ProbeEvent)
    → last? (build_transaction_states es) ≡ of_event (latest as_xact_event es)
unfolding build_transaction_states latest
last-build_transaction_states [] = refl
last-build_transaction_states (e ∷ es) = last-cons e es (last-build_transaction_states es)

-- What the state of the last transaction makes of the stages `clog_update` and `commit`.
abbrev pub xact_status : Option XactState → StageStatus
xact_status (some XactState.commit) = done
xact_status (some XactState.abort) = error
xact_status _ = pending

abbrev pub done_if : Bool → StageStatus
done_if b = if b then done else pending

digits_ne : (s t : String) → IsDigitText s → ¬ IsDigitText t → (s == t) ≡ false
digits_ne s t h n = beq-ne s t (λ e. n (subst IsDigitText e h))

-- The raw text of an event's state and its conversion by `String` are the same for both tests.
is_text-commit :
    (o : Option Value) → is_text o "commit" ≡ (to_text (get_or o (text "")) == "commit")
is_text-commit none = refl
is_text-commit (some null) = refl
is_text-commit (some (bool true)) = refl
is_text-commit (some (bool false)) = refl
is_text-commit (some (number n)) =
    sym (digits_ne (show n) "commit" (show-IsDigitText n) (λ h. omega arith))
is_text-commit (some (text s)) = refl

is_text-abort : (o : Option Value) → is_text o "abort" ≡ (to_text (get_or o (text "")) == "abort")
is_text-abort none = refl
is_text-abort (some null) = refl
is_text-abort (some (bool true)) = refl
is_text-abort (some (bool false)) = refl
is_text-abort (some (number n)) =
    sym (digits_ne (show n) "abort" (show-IsDigitText n) (λ h. omega arith))
is_text-abort (some (text s)) = refl

abbrev tested : Bool → Bool → StageStatus
tested is_commit is_abort = if is_commit then done else if is_abort then error else pending

tested-xact_status :
    (s : String)
    → tested (s == "commit") (s == "abort") ≡ xact_status (some (transaction_state_of s))
tested-xact_status s = elim (Bool-cases (s == "begin")) [
  | inl begins ↦ rw (beq→eq s "begin" begins) refl
  | inr other ↦ rw other (ground arith)
]

status_tested :
    (e : ProbeEvent) (stage : PipelineStage)
    → stage.status ≡ pending
    → (xact_stage (some e) stage).status
      ≡ tested (is_text (field e "state") "commit") (is_text (field e "state") "abort")
unfolding xact_stage
status_tested e stage h = elim (Bool-cases (is_text (field e "state") "commit")) [
  | inl yes_commit ↦ rw yes_commit refl
  | inr not_commit ↦ rw not_commit (elim (Bool-cases (is_text (field e "state") "abort")) [
    | inl yes_abort ↦ rw yes_abort refl
    | inr not_abort ↦ rw not_abort h
  ])
]

status-xact_stage :
    (o : Option ProbeEvent) (stage : PipelineStage)
    → stage.status ≡ pending
    → (xact_stage o stage).status ≡ xact_status (transaction_state? (of_event o))
unfolding xact_stage transaction_of text_field
status-xact_stage none stage h = h
status-xact_stage (some e) stage h =
    status_tested e stage h
    ∙ ap₂ tested (is_text-commit (field e "state")) (is_text-abort (field e "state"))
    ∙ tested-xact_status (text_field e "state")

abbrev pub statuses : List PipelineStage → List StageStatus
statuses = map (λ s. s.status)

abbrev row : StageStatus → StageStatus → StageStatus → StageStatus → List StageStatus
row buffer wal clog commit' =
    pending ∷ pending ∷ pending ∷ done ∷ pending ∷ buffer ∷ wal ∷ pending ∷ clog ∷ commit' ∷ []

statuses-fill_stages :
    (wal buffer xact : Option ProbeEvent) {stages : List PipelineStage}
    → fill_stages wal buffer xact ≡ some stages
    → let x = xact_status (transaction_state? (of_event xact)) in
      statuses stages ≡ row (done_if (is_some buffer)) (done_if (is_some wal)) x x
unfolding fill_stages write_stage_template
statuses-fill_stages none none none h = absurd (cc)
statuses-fill_stages (some w) none xact h =
    ap statuses (sym (some-injective _ _ h))
    ∙ ap₂ (row pending done) (status-xact_stage xact _ refl) (status-xact_stage xact _ refl)
statuses-fill_stages (some w) (some b) xact h =
    ap statuses (sym (some-injective _ _ h))
    ∙ ap₂ (row done done) (status-xact_stage xact _ refl) (status-xact_stage xact _ refl)
statuses-fill_stages none (some b) xact h =
    ap statuses (sym (some-injective _ _ h))
    ∙ ap₂ (row done pending) (status-xact_stage xact _ refl) (status-xact_stage xact _ refl)
statuses-fill_stages none none (some x) h =
    ap statuses (sym (some-injective _ _ h))
    ∙ ap₂ (row pending pending) (status-xact_stage (some x) _ refl)
        (status-xact_stage (some x) _ refl)

pub statuses-build_write_stages :
    (es : List ProbeEvent) {stages : List PipelineStage}
    → build_write_stages es ≡ some stages
    → let buffer = done_if (is_some (latest as_buffer_event es)) in
      let wal = done_if (is_some (latest as_wal_event es)) in
      let xact = xact_status (transaction_state? (last? (build_transaction_states es))) in
      statuses stages
      ≡ pending ∷ pending ∷ pending ∷ done ∷ pending ∷ buffer ∷ wal ∷ pending ∷ xact ∷ xact ∷ []
unfolding build_write_stages
statuses-build_write_stages es h = rw (last-build_transaction_states es) (
    statuses-fill_stages (latest as_wal_event es) (latest as_buffer_event es)
      (latest as_xact_event es) h)
