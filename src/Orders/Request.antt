-- ===== src/Orders/Request.antt =====
-- A request to send an order, of `_prepare_execution` in
-- backend/app/services/strategy_service.py, with `find_latest_execution_for_action` of backend/app/services/trade_service.py.
use codex_trading_app.Prelude.{
  ℕ, String, str_eq, Bool, false, ◌&&◌, Option, none, some, List, [], ◌∷◌, any, filter, ltb,
}
use codex_trading_app.Prelude.Rows.{find_first}
use codex_trading_app.Prelude.Sort.{sorted}
use codex_trading_app.Lifecycle.ExecutionStatus.{
  ExecutionStatus, submission_pending, order_submitted, order_acknowledged, fill_partial,
  needs_manual_review, value,
}
use codex_trading_app.Redaction.Payload.{Payload, text, Fields}
use codex_trading_app.Trades.Executions.Record.{Execution, ExecutionUpdate}
use codex_trading_app.Trades.Executions.Events.{find_field}

-- `ExecutionPhase`
abbrev pub entry_phase : String
entry_phase = "ENTRY"

abbrev pub close_phase : String
close_phase = "CLOSE"

-- `status in statuses`, of a stored text.
abbrev pub status_in : String → List ExecutionStatus → Bool
status_in status statuses = any (λ s. str_eq (value s) status) statuses

abbrev pub retryable_execution_statuses : List ExecutionStatus
retryable_execution_statuses =
    submission_pending ∷ order_submitted ∷ order_acknowledged ∷ fill_partial ∷ needs_manual_review
    ∷ []

abbrev pub safe_close_retry_statuses : List ExecutionStatus
safe_close_retry_statuses = submission_pending ∷ []

abbrev pub unsafe_entry_retry_statuses : List ExecutionStatus
unsafe_entry_retry_statuses =
    order_submitted ∷ order_acknowledged ∷ fill_partial ∷ needs_manual_review ∷ []

module _ {F : Type 0} where
  abbrev pub no_execution_update : ExecutionUpdate F
  no_execution_update = record {
    trade_intent_id = none;
    client_request_id = none;
    broker_reference = none;
    local_position_id = none;
    local_trade_id = none;
    submitted_at = none;
    acknowledged_at = none;
    completed_at = none;
    filled_size = none;
    average_fill_price = none;
    intended_risk_amount = none;
    submitted_risk_amount = none;
    fill_derived_risk_amount = none;
    risk_truth_confidence = none;
    reason = none;
    error_code = none;
    error_message = none;
    requires_manual_review = none;
    details = Fields.end;
  }

  -- `details.get("action_key") == action_key`
  has_action : String → Option (Payload F) → Bool
  has_action action_key (some (text key)) = str_eq key action_key
  has_action action_key _ = false

  -- `find_latest_execution_for_action`; of rows created at one instant the first stored comes first.
  unfoldable pub find_latest_execution_for_action :
      (strategy_name instrument phase action_key : String)
      → List (Execution F)
      → Option (Execution F)
  unfolding find_first sorted has_action find_field
  find_latest_execution_for_action strategy_name instrument phase action_key executions =
      find_first (λ e. has_action action_key (find_field "action_key" e.details))
        (sorted (λ a b. ltb b.created_at a.created_at)
          (filter
            (λ e.
              str_eq e.strategy_name strategy_name
              && str_eq e.instrument instrument
              && str_eq e.phase phase)
            executions))

-- What a caller wants to do. `action_key` is the text that `details` hold under that name; `hex` are
-- the digits of the new request id, `now`, `later` and `written_now` readings of the clock.
pub record ExecutionRequest (F : Type 0) : Type 0 where
  pub strategy_name : String
  pub instrument : String
  pub phase : String
  pub action_key : String
  pub signal_time : ℕ
  pub requested_size : Option F
  pub requested_price : Option F
  pub reason : String
  pub details : Fields F
  pub trade_intent_id : Option ℕ
  pub broker_reference : Option String
  pub local_position_id : Option ℕ
  pub hex : String
  pub now : ℕ
  pub later : ℕ
  pub written_now : String
