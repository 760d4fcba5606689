-- ===== src/Trades/Executions/Examples.antt =====
-- Attempts for backend/app/services/trade_service.py, over ℕ for floats.
use codex_trading_app.Prelude.{
  ℕ, ◌≤◌, String, ◌≡◌, refl, Bool, true, false, none, some, List, [], ◌∷◌, length, map,
}
use codex_trading_app.Lifecycle.ExecutionStatus.{
  ExecutionStatus, order_submitted, order_acknowledged, fill_full, position_opened, failed,
  of_value, is_in, value,
}
use codex_trading_app.Lifecycle.Executions.{member, terminal_statuses}
use codex_trading_app.Redaction.Payload.{Payload, text, end, field}
use codex_trading_app.Trades.Executions.Record.{Execution, ExecutionUpdate}
use codex_trading_app.Trades.Executions.Events.{ExecutionEvent}
use codex_trading_app.Trades.Executions.Runs.{
  TransitionCall, last_execution, events_of, events_at_most_five, settled_for_good,
}

abbrev attempt : String → Execution ℕ
attempt status = record {
  id = some 1;
  trade_intent_id = some 4;
  strategy_name = "breakout";
  instrument = "EURUSD";
  phase = "entry";
  status = status;
  client_request_id = none;
  broker_reference = none;
  local_position_id = none;
  local_trade_id = none;
  signal_time = 10;
  submitted_at = none;
  acknowledged_at = none;
  completed_at = none;
  last_transition_at = 10;
  requested_size = some 2;
  filled_size = none;
  requested_price = none;
  average_fill_price = none;
  intended_risk_amount = none;
  submitted_risk_amount = none;
  fill_derived_risk_amount = none;
  risk_truth_confidence = none;
  reason = none;
  error_code = none;
  error_message = none;
  requires_manual_review = false;
  details = field "token" (text "hunter2") end;
  created_at = 10;
  updated_at = 10;
}

abbrev nothing_new : ExecutionUpdate ℕ
nothing_new = record {
  trade_intent_id = none;
  client_request_id = none;
  broker_reference = none;
  local_position_id = none;
  local_trade_id = none;
  submitted_at = none;
  acknowledged_at = none;
  completed_at = none;
  filled_size = none;
  average_fill_price = none;
  intended_risk_amount = none;
  submitted_risk_amount = none;
  fill_derived_risk_amount = none;
  risk_truth_confidence = none;
  reason = none;
  error_code = none;
  error_message = none;
  requires_manual_review = none;
  details = end;
}

abbrev to : ExecutionStatus → TransitionCall ℕ
to status = record { target = member status; update = nothing_new; now = 20; later = 21 }

abbrev unchanged : String → String
unchanged s = s

abbrev shown : Payload ℕ → String
shown value = "?"

abbrev is_recorded : ExecutionEvent ℕ → Bool
is_recorded event = true

-- An attempt that fills, with a call in between that is refused.
abbrev a_fill : List (TransitionCall ℕ)
a_fill =
    to order_submitted
    ∷ to fill_full
    ∷ to order_acknowledged
    ∷ to fill_full
    ∷ to position_opened
    ∷ to failed
    ∷ []

a_fill_events :
    map
      (λ e. e.execution.status)
      (events_of unchanged unchanged shown is_recorded a_fill (attempt "SUBMISSION_PENDING"))
    ≡ "ORDER_SUBMITTED" ∷ "ORDER_ACKNOWLEDGED" ∷ "FILL_FULL" ∷ "POSITION_OPENED" ∷ []
unfolding events_of
a_fill_events = refl

a_fill_details :
    (last_execution unchanged unchanged shown is_recorded a_fill
      (attempt "SUBMISSION_PENDING")).details
    ≡ field "token" (text "[REDACTED]") end
unfolding last_execution
a_fill_details = refl

events_at_most_five_example :
    length (events_of unchanged unchanged shown is_recorded a_fill (attempt "SUBMISSION_PENDING"))
    ≤ 5
events_at_most_five_example =
    events_at_most_five unchanged unchanged shown is_recorded a_fill (attempt "SUBMISSION_PENDING")

failed_text : of_value "FAILED" ≡ some failed
unfolding of_value value
failed_text = refl

failed_settled : is_in failed terminal_statuses ≡ true
unfolding is_in
failed_settled = refl

settled_for_good_example :
    ((last_execution unchanged unchanged shown is_recorded a_fill (attempt "FAILED")).status
      ≡ "FAILED")
    × (length (events_of unchanged unchanged shown is_recorded a_fill (attempt "FAILED")) ≡ 0)
settled_for_good_example =
    settled_for_good unchanged unchanged shown is_recorded a_fill (attempt "FAILED") failed
      failed_text failed_settled
