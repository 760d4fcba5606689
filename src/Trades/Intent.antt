-- ===== src/Trades/Intent.antt =====
-- A row of `TradeIntent` (backend/app/models/trade.py) and the changes that a transition of
-- backend/app/services/trade_service.py may carry. `F` is the type of floats; `details` is left out.
use codex_trading_app.Prelude.{
  ℕ, String, str_eq, Bool, false, ◌&&◌, Option, none, some, [], ◌∷◌, any, ◌==◌, if◌then◌else◌,
}
use codex_trading_app.Lifecycle.IntentState.{
  TradeIntentState, value, active_instrument_ownership_states,
}

pub record TradeIntent (F : Type 0) : Type 0 where
  pub id : Option ℕ
  pub strategy_name : String
  pub instrument : String
  pub direction : String
  pub state : String
  pub allocation_cycle_id : Option String
  pub allocated_size : Option F
  pub allocated_risk_percent : Option F
  pub estimated_risk_amount : Option F
  pub submitted_risk_amount : Option F
  pub fill_derived_risk_amount : Option F
  pub risk_truth_confidence : Option String
  pub risk_currency : Option String
  pub average_fill_price : Option F
  pub filled_size : Option F
  pub broker_reference : Option String
  pub close_broker_reference : Option String
  pub position_id : Option ℕ
  pub trade_id : Option ℕ
  pub decision_reason_code : Option String
  pub decision_reason : Option String
  pub close_reason_code : Option String
  pub close_reason : Option String
  pub execution_client_request_id : Option String
  pub submitted_at : Option ℕ
  pub acknowledged_at : Option ℕ
  pub completed_at : Option ℕ
  pub opened_at : Option ℕ
  pub closed_at : Option ℕ
  pub updated_at : ℕ

-- The arguments of `transition_trade_intent` that may be given.
pub record IntentUpdate (F : Type 0) : Type 0 where
  pub allocation_cycle_id : Option String
  pub allocated_size : Option F
  pub allocated_risk_percent : Option F
  pub estimated_risk_amount : Option F
  pub submitted_risk_amount : Option F
  pub fill_derived_risk_amount : Option F
  pub risk_truth_confidence : Option String
  pub risk_currency : Option String
  pub average_fill_price : Option F
  pub filled_size : Option F
  pub broker_reference : Option String
  pub close_broker_reference : Option String
  pub position_id : Option ℕ
  pub trade_id : Option ℕ
  pub decision_reason_code : Option String
  pub decision_reason : Option String
  pub close_reason_code : Option String
  pub close_reason : Option String
  pub execution_client_request_id : Option String
  pub submitted_at : Option ℕ
  pub acknowledged_at : Option ℕ
  pub completed_at : Option ℕ
  pub opened_at : Option ℕ
  pub closed_at : Option ℕ

abbrev pub no_update : {F : Type 0} → IntentUpdate F
no_update = record {
  allocation_cycle_id = none;
  allocated_size = none;
  allocated_risk_percent = none;
  estimated_risk_amount = none;
  submitted_risk_amount = none;
  fill_derived_risk_amount = none;
  risk_truth_confidence = none;
  risk_currency = none;
  average_fill_price = none;
  filled_size = none;
  broker_reference = none;
  close_broker_reference = none;
  position_id = none;
  trade_id = none;
  decision_reason_code = none;
  decision_reason = none;
  close_reason_code = none;
  close_reason = none;
  execution_client_request_id = none;
  submitted_at = none;
  acknowledged_at = none;
  completed_at = none;
  opened_at = none;
  closed_at = none;
}

-- `if given is not None: field = given`
abbrev pub set_field : {A : Type 0} → Option A → Option A → Option A
set_field none field = field
set_field (some a) field = some a

-- `state in ACTIVE_INSTRUMENT_OWNERSHIP_STATES`, of a stored text.
unfoldable pub owns : String → Bool
unfolding value
owns state = any (λ s. str_eq (value s) state) active_instrument_ownership_states

-- The rows that the unique index on the instrument covers, of one instrument.
unfoldable pub owns_instrument : {F : Type 0} → String → TradeIntent F → Bool
owns_instrument i r = owns r.state && str_eq r.instrument i

abbrev pub same_id : Option ℕ → Option ℕ → Bool
same_id (some a) (some b) = a == b
same_id _ _ = false

-- `_sanitize_text_field`, with `sanitize_text` of backend/app/core/redaction.py.
abbrev pub sanitize_text_field : (String → String) → Option String → Option String
sanitize_text_field sanitize_text none = none
sanitize_text_field sanitize_text (some t) = some (sanitize_text t)

-- `_sanitize_trade_intent`
unfoldable pub sanitize_trade_intent :
    {F : Type 0} → (String → String) → TradeIntent F → TradeIntent F
sanitize_trade_intent sanitize_text r = record r {
  decision_reason = sanitize_text_field sanitize_text r.decision_reason;
  close_reason = sanitize_text_field sanitize_text r.close_reason;
}

-- What `transition_trade_intent` writes to the row.
unfoldable pub transitioned :
    {F : Type 0}
    → (String → String)
    → TradeIntentState
    → IntentUpdate F
    → ℕ
    → TradeIntent F
    → TradeIntent F
unfolding value sanitize_trade_intent
transitioned sanitize_text next u now r = sanitize_trade_intent sanitize_text (record {
  id = r.id;
  strategy_name = r.strategy_name;
  instrument = r.instrument;
  direction = r.direction;
  state = value next;
  allocation_cycle_id = set_field u.allocation_cycle_id r.allocation_cycle_id;
  allocated_size = set_field u.allocated_size r.allocated_size;
  allocated_risk_percent = set_field u.allocated_risk_percent r.allocated_risk_percent;
  estimated_risk_amount = set_field u.estimated_risk_amount r.estimated_risk_amount;
  submitted_risk_amount = set_field u.submitted_risk_amount r.submitted_risk_amount;
  fill_derived_risk_amount = set_field u.fill_derived_risk_amount r.fill_derived_risk_amount;
  risk_truth_confidence = set_field u.risk_truth_confidence r.risk_truth_confidence;
  risk_currency = set_field u.risk_currency r.risk_currency;
  average_fill_price = set_field u.average_fill_price r.average_fill_price;
  filled_size = set_field u.filled_size r.filled_size;
  broker_reference = set_field u.broker_reference r.broker_reference;
  close_broker_reference = set_field u.close_broker_reference r.close_broker_reference;
  position_id = set_field u.position_id r.position_id;
  trade_id = set_field u.trade_id r.trade_id;
  decision_reason_code = set_field u.decision_reason_code r.decision_reason_code;
  decision_reason = set_field u.decision_reason r.decision_reason;
  close_reason_code = set_field u.close_reason_code r.close_reason_code;
  close_reason = set_field (sanitize_text_field sanitize_text u.close_reason) r.close_reason;
  execution_client_request_id =
      set_field u.execution_client_request_id r.execution_client_request_id;
  submitted_at = set_field u.submitted_at r.submitted_at;
  acknowledged_at = set_field u.acknowledged_at r.acknowledged_at;
  completed_at = set_field u.completed_at r.completed_at;
  opened_at = set_field u.opened_at r.opened_at;
  closed_at = set_field u.closed_at r.closed_at;
  updated_at = now;
})

-- `_trade_intent_event_severity`
unfoldable pub trade_intent_event_severity : String → String
trade_intent_event_severity state =
    if any (str_eq state) ("FAILED" ∷ "FORCED_RECONCILIATION_CLOSE" ∷ [])
    then "error"
    else if any (str_eq state) ("REJECTED" ∷ "CANCELLED" ∷ "PARTIALLY_FILLED" ∷ [])
    then "warning"
    else "info"
