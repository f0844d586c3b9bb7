-- ===== src/Visualization/Transactions.antt =====
-- `buildTransactionStates` in frontend/src/hooks/useVisualizationData.ts, and the type
-- `TransactionState` of frontend/src/components/transaction/TransactionStateView.tsx.
use learn_pg.Prelude.{ℕ, Option, none, some, List, [], ◌∷◌, String, ◌==◌, string_eq, if◌then◌else◌}
use learn_pg.Prelude.Number.{Number}
use learn_pg.Events.{ProbeEvent, Value, text, field, number_field, text_field}
use learn_pg.Visualization.Filters.{as_xact_event}

pub data XactState : Type 0 where
  idle started in_progress commit abort : XactState

pub record TransactionState : Type 0 where
  pub xid : Number
  pub vxid : String
  pub state : XactState
  pub start_time_us : Option ℕ
  pub end_time_us : Option ℕ
  pub lsn : Option String

-- `transactionStateMap[s] ?? 'in_progress'`
abbrev pub transaction_state_of : String → XactState
transaction_state_of s =
    if s == "begin"
    then started
    else if s == "commit"
    then commit
    else if s == "abort"
    then abort
    else in_progress

-- The value, if it is a text: `typeof v === 'string' ? v : undefined`.
abbrev pub as_text : Option Value → Option String
as_text (some (text s)) = some s
as_text _ = none

unfoldable pub transaction_of : ProbeEvent → TransactionState
transaction_of e = record {
  xid = number_field e "xid";
  vxid = text_field e "vxid";
  state = transaction_state_of (text_field e "state");
  start_time_us = some e.timestamp;
  end_time_us = some e.timestamp;
  lsn = as_text (field e "lsn");
}

-- `events.map(asXactEvent).filter(Boolean).map(…)`
unfoldable pub build_transaction_states : List ProbeEvent → List TransactionState
build_transaction_states [] = []
build_transaction_states (e ∷ es) =
    let rest = build_transaction_states es in
    elim (as_xact_event e) [ none ↦ rest | some x ↦ transaction_of x ∷ rest ]
