-- ===== src/Orders/Prepare.antt =====
-- `_prepare_execution` of backend/app/services/strategy_service.py.
use Prim.Native.String
use codex_trading_app.Prelude.{
  ℕ, ◌+◌, String, str_eq, Bool, true, false, not, ◌&&◌, Option, none, some, List, Attempt, ok,
  ◌>>=◌, if◌then◌else◌,
}
use codex_trading_app.Lifecycle.ExecutionStatus.{submission_pending, needs_manual_review, value}
use codex_trading_app.Lifecycle.Errors.{LifecycleError}
use codex_trading_app.Lifecycle.Executions.{member}
use codex_trading_app.Lifecycle.Executions
use codex_trading_app.Redaction.Payload.{Payload, flag, number, text, null, Fields}
use codex_trading_app.Trades.Executions.Record.{Execution, ExecutionUpdate, put}
use codex_trading_app.Trades.Executions.Events.{ExecutionEvent, find_field}
use codex_trading_app.Trades.Executions.Store.{create_execution, transition_execution}
use codex_trading_app.Orders.Request.{
  entry_phase, close_phase, status_in, retryable_execution_statuses, safe_close_retry_statuses,
  unsafe_entry_retry_statuses, no_execution_update, find_latest_execution_for_action,
  ExecutionRequest,
}

abbrev or_null : {F : Type 0} → Option String → Payload F
or_null none = null
or_null (some t) = text t

-- `lower`, `substitute` and `shown` are those of the redaction, `is_recorded` says which events are
-- stored; `number_of` writes a count into details and `attempts_of` reads one, with 0 where it is
-- missing.
module _ {F : Type 0} (lower substitute : String → String) (shown : Payload F → String)
    (is_recorded : ExecutionEvent F → Bool) (number_of : ℕ → F)
    (attempts_of : Option (Payload F) → ℕ) where
  unfoldable pub duplicate_details : ExecutionRequest F → Execution F → Fields F
  unfolding put find_field
  duplicate_details request reusable = put "last_duplicate_status" (text reusable.status) (
      put "last_duplicate_detected_at" (text request.written_now) (
        put "duplicate_attempt_count"
          (number
            (number_of (attempts_of (find_field "duplicate_attempt_count" reusable.details) + 1)))
          (put "duplicate_action_detected" (flag true) request.details)))

  -- The answer to a request: the execution, and whether it is to be sent.
  abbrev answered :
      Bool → Execution F × Option (ExecutionEvent F) → Attempt LifecycleError (Execution F × Bool)
  answered send (execution, event) = ok (execution, send)

  abbrev pub blocked_entry_update : ExecutionRequest F → Execution F → ExecutionUpdate F
  blocked_entry_update request reusable = record no_execution_update {
    trade_intent_id = request.trade_intent_id;
    client_request_id = reusable.client_request_id;
    broker_reference = request.broker_reference;
    local_position_id = request.local_position_id;
    reason = some "Duplicate entry retry blocked; prior entry may already have reached the broker";
    requires_manual_review = some true;
    details = put "duplicate_retry_blocked" (flag true) (
        put "blocked_duplicate_client_request_id" (or_null reusable.client_request_id)
          (duplicate_details request reusable));
  }

  unfoldable pub block_entry :
      ExecutionRequest F → Execution F → Attempt LifecycleError (Execution F × Bool)
  unfolding transition_execution duplicate_details put
  block_entry request reusable = do
    result ←
        transition_execution lower substitute shown is_recorded (member needs_manual_review)
          (blocked_entry_update request reusable) request.now request.later reusable
    answered false result

  abbrev pub blocked_close_update : ExecutionRequest F → Execution F → ExecutionUpdate F
  blocked_close_update request reusable = record no_execution_update {
    client_request_id = reusable.client_request_id;
    broker_reference = request.broker_reference;
    local_position_id = request.local_position_id;
    reason = some "Duplicate close retry blocked; prior close may already have reached the broker";
    requires_manual_review = some true;
    details = put "duplicate_retry_blocked" (flag true) (duplicate_details request reusable);
  }

  unfoldable pub block_close :
      ExecutionRequest F → Execution F → Attempt LifecycleError (Execution F × Bool)
  unfolding transition_execution duplicate_details put
  block_close request reusable = do
    result ←
        transition_execution lower substitute shown is_recorded (member needs_manual_review)
          (blocked_close_update request reusable) request.now request.later reusable
    answered false result

  abbrev pub retry_update : ExecutionRequest F → Execution F → ExecutionUpdate F
  retry_update request reusable = record no_execution_update {
    trade_intent_id = request.trade_intent_id;
    client_request_id = reusable.client_request_id;
    broker_reference = request.broker_reference;
    local_position_id = request.local_position_id;
    reason = some (String.◌++◌ request.reason " retried with persisted client request id");
    details = duplicate_details request reusable;
  }

  unfoldable pub retry :
      ExecutionRequest F → Execution F → Attempt LifecycleError (Execution F × Bool)
  unfolding transition_execution duplicate_details
  retry request reusable = do
    result ←
        transition_execution lower substitute shown is_recorded (Executions.text reusable.status)
          (retry_update request reusable) request.now request.later reusable
    answered true result

  -- The prior attempt of the same action that is not settled.
  unfoldable pub resume :
      ExecutionRequest F → Execution F → Attempt LifecycleError (Execution F × Bool)
  unfolding block_entry block_close retry value
  resume request reusable =
      if str_eq request.phase entry_phase && status_in reusable.status unsafe_entry_retry_statuses
      then block_entry request reusable
      else if str_eq request.phase close_phase
          && not (status_in reusable.status safe_close_retry_statuses)
      then block_close request reusable
      else retry request reusable

  -- `_generate_client_request_id`
  unfoldable pub client_request_id_of : ExecutionRequest F → String
  client_request_id_of request =
      String.◌++◌ (if str_eq request.phase entry_phase then "ent-" else "cls-") request.hex

  -- The row of a first attempt; its defaults take the reading of the clock.
  unfoldable pub first_attempt : ExecutionRequest F → Execution F
  unfolding client_request_id_of put value
  first_attempt request = record {
    id = none;
    trade_intent_id = request.trade_intent_id;
    strategy_name = request.strategy_name;
    instrument = request.instrument;
    phase = request.phase;
    status = value submission_pending;
    client_request_id = some (client_request_id_of request);
    broker_reference = request.broker_reference;
    local_position_id = request.local_position_id;
    local_trade_id = none;
    signal_time = request.signal_time;
    submitted_at = none;
    acknowledged_at = none;
    completed_at = none;
    last_transition_at = request.now;
    requested_size = request.requested_size;
    filled_size = none;
    requested_price = request.requested_price;
    average_fill_price = none;
    intended_risk_amount = none;
    submitted_risk_amount = none;
    fill_derived_risk_amount = none;
    risk_truth_confidence = none;
    reason = some request.reason;
    error_code = none;
    error_message = none;
    requires_manual_review = false;
    details = put "duplicate_attempt_count" (number (number_of 0)) request.details;
    created_at = request.now;
    updated_at = request.now;
  }

  unfoldable pub begin : ℕ → ExecutionRequest F → Attempt LifecycleError (Execution F × Bool)
  unfolding create_execution first_attempt
  begin new_id request = do
    result ← create_execution lower substitute shown is_recorded new_id (first_attempt request)
    answered true result

  -- `_prepare_execution`, on the latest execution of the action.
  unfoldable pub prepare_from :
      ℕ → ExecutionRequest F → Option (Execution F) → Attempt LifecycleError (Execution F × Bool)
  unfolding resume begin value
  prepare_from new_id request none = begin new_id request
  prepare_from new_id request (some reusable) =
      if status_in reusable.status retryable_execution_statuses
      then resume request reusable
      else begin new_id request

  unfoldable pub prepare_execution :
      ℕ → ExecutionRequest F → List (Execution F) → Attempt LifecycleError (Execution F × Bool)
  unfolding prepare_from find_latest_execution_for_action
  prepare_execution new_id request executions = prepare_from new_id request (
      find_latest_execution_for_action request.strategy_name request.instrument request.phase
        request.action_key executions)
