-- ===== src/Orders/Outcome.antt =====
-- `_transition_execution_from_broker_result` of backend/app/services/strategy_service.py: what a
-- broker's result does to the execution and its intent.
use codex_trading_app.Prelude.{
  ℕ, String, str_eq, Bool, true, not, ◌&&◌, Option, none, some, Attempt, ok, raised, ◌>>=◌,
  if◌then◌else◌,
}
use codex_trading_app.Allocation.Floats.{Floats, or_float}
use codex_trading_app.Lifecycle.ExecutionStatus.{ExecutionStatus}
use codex_trading_app.Lifecycle.IntentState.{TradeIntentState}
use codex_trading_app.Lifecycle.Errors.{LifecycleError}
use codex_trading_app.Lifecycle.Intents
use codex_trading_app.Lifecycle.Executions
use codex_trading_app.Redaction.Payload.{Payload, flag, mapping, Fields, end, field}
use codex_trading_app.Redaction.Text.{sanitize_text}
use codex_trading_app.Trades.Intent.{TradeIntent, IntentUpdate, no_update}
use codex_trading_app.Trades.Table.{IntentTable}
use codex_trading_app.Trades.Service.{StoreError, transition_refused, transition_trade_intent}
use codex_trading_app.Trades.Executions.Record.{Execution, ExecutionUpdate, put, given_or}
use codex_trading_app.Trades.Executions.Events.{ExecutionEvent, text_or}
use codex_trading_app.Trades.Executions.Store.{transition_execution}
use codex_trading_app.Orders.Request.{close_phase, no_execution_update}
use codex_trading_app.Orders.Result.{
  BrokerOrderResult, is_ambiguous, is_filled, is_partial, fill_status, intent_state,
  broker_result_payload,
}

-- An error of the lifecycle rules is raised on.
unfoldable pub lifted : {A : Type 0} → Attempt LifecycleError A → Attempt StoreError A
lifted (raised problem) = raised (transition_refused problem)
lifted (ok a) = ok a

-- `a or b` with a default.
abbrev or_text : Option String → String → String
or_text none default = default
or_text (some t) default = if str_eq t "" then default else t

module _ (fl : Floats) (table : IntentTable fl.F) where
  -- What a call works on: the execution, its intent if there is one, and the table.
  pub record OrderState : Type 0 where
    pub execution : Execution fl.F
    pub intent : Option (TradeIntent fl.F)
    pub db : table.Db

-- `fl` are the floats, `table` is the table of intents; `lower`, `substitute` and `shown` are those of
-- the redaction, `is_recorded` says which events are stored, `clock` gives the readings of the clock
-- in a call by their place in it.
module _ (fl : Floats) (table : IntentTable fl.F) (lower substitute : String → String)
    (shown : Payload fl.F → String) (is_recorded : ExecutionEvent fl.F → Bool)
    (isoformat : ℕ → String) (clock : ℕ → ℕ) where
  open fl use {F}
  open table use {Db}

  -- A call of `transition_execution`, with its place among the calls.
  unfoldable pub move_execution :
      ExecutionStatus
      → ExecutionUpdate F
      → ℕ
      → OrderState fl table
      → Attempt StoreError (OrderState fl table)
  unfolding transition_execution lifted
  move_execution target u n st = do
    result ← lifted (
        transition_execution lower substitute shown is_recorded (Executions.member target) u
          (clock n) (clock n) st.execution)
    ok (record st { execution = result.0 })

  -- A call of `transition_trade_intent`, on an intent.
  unfoldable pub move_given :
      TradeIntentState
      → IntentUpdate F
      → ℕ
      → OrderState fl table
      → TradeIntent F
      → Attempt StoreError (OrderState fl table)
  unfolding transition_trade_intent sanitize_text
  move_given target changes n st intent = do
    result ←
        transition_trade_intent table (sanitize_text substitute) (Intents.member target) changes
          (clock n) intent st.db
    ok (record st { intent = some (result.0); db = result.1 })

  unfoldable pub move_if_given :
      TradeIntentState
      → IntentUpdate F
      → ℕ
      → OrderState fl table
      → Option (TradeIntent F)
      → Attempt StoreError (OrderState fl table)
  unfolding move_given
  move_if_given target changes n st none = ok st
  move_if_given target changes n st (some intent) = move_given target changes n st intent

  -- `if trade_intent is not None: trade_service.transition_trade_intent(...)`
  unfoldable pub move_intent :
      TradeIntentState
      → IntentUpdate F
      → ℕ
      → OrderState fl table
      → Attempt StoreError (OrderState fl table)
  unfolding move_if_given
  move_intent target changes n st = move_if_given target changes n st st.intent

  -- A call of each, the one on the execution first.
  unfoldable pub move_both :
      ExecutionStatus
      → ExecutionUpdate F
      → ℕ
      → TradeIntentState
      → IntentUpdate F
      → ℕ
      → OrderState fl table
      → Attempt StoreError (OrderState fl table)
  unfolding move_execution move_intent
  move_both status u n state changes m st = do
    moved ← move_execution status u n st
    move_intent state changes m moved

  abbrev intent_id : Option (TradeIntent F) → Option ℕ
  intent_id none = none
  intent_id (some intent) = intent.id

  module _ (order : BrokerOrderResult F) (opened_reason completed_reason : String)
      (before : OrderState fl table) where
    abbrev is_close : Bool
    is_close = str_eq before.execution.phase close_phase

    abbrev request_id : Option String
    request_id = text_or order.client_request_id before.execution.client_request_id

    abbrev broker_result : Fields F
    broker_result = broker_result_payload isoformat order request_id

    abbrev details_of : Fields F → Fields F
    details_of result = field "broker_result" (mapping result) end

    -- What every transition of the execution writes.
    abbrev execution_update : ExecutionUpdate F
    execution_update = record no_execution_update {
      trade_intent_id = intent_id before.intent;
      client_request_id = request_id;
      broker_reference = some order.broker_reference;
      error_message = order.error_message;
      details = details_of broker_result;
    }

    -- `intent_broker_reference_kwargs`
    abbrev intent_update : IntentUpdate F
    intent_update =
        if is_close
        then record no_update { close_broker_reference = some order.broker_reference }
        else record no_update { broker_reference = some order.broker_reference }

    abbrev acknowledged_instant : ℕ
    acknowledged_instant = given_or order.acknowledged_at order.executed_at

    abbrev filled_amount : Option F
    filled_amount = some (or_float fl order.filled_size order.size)

    abbrev fill_price : Option F
    fill_price = some (or_float fl order.average_fill_price order.price)

    -- The acknowledgement that comes first.
    unfoldable pub acknowledge_order :
        OrderState fl table → Attempt StoreError (OrderState fl table)
    acknowledge_order st =
        move_both ExecutionStatus.order_acknowledged
          (record execution_update {
            submitted_at = order.submitted_at;
            acknowledged_at = some acknowledged_instant;
            reason = some (or_text order.reason opened_reason);
            error_code = order.error_code;
            requires_manual_review = some order.requires_manual_review;
          })
          0 TradeIntentState.acknowledged
          (record intent_update {
            execution_client_request_id = request_id;
            acknowledged_at = some acknowledged_instant;
          })
          1 st

    -- A fill in part, before an incomplete close goes to review.
    unfoldable pub note_partial_close :
        OrderState fl table → Attempt StoreError (OrderState fl table)
    note_partial_close st =
        if is_partial order.status
        then move_execution ExecutionStatus.fill_partial
            (record execution_update {
              completed_at = some order.executed_at;
              filled_size = filled_amount;
              average_fill_price = fill_price;
              reason = some (or_text order.reason "Close partially filled.");
              error_code = order.error_code;
              requires_manual_review = some true;
            })
            2 st
        else ok st

    -- A close that is not filled.
    unfoldable pub review_close : OrderState fl table → Attempt StoreError (OrderState fl table)
    review_close st = do
      noted ← note_partial_close st
      move_both ExecutionStatus.needs_manual_review
          (record execution_update {
            completed_at = some order.executed_at;
            filled_size = filled_amount;
            average_fill_price = fill_price;
            reason = some (or_text order.reason "Close did not complete fully.");
            error_code = some (
                or_text order.error_code (
                  if is_ambiguous order.status
                  then "BROKER_CONFIRMATION_AMBIGUOUS"
                  else "BROKER_CLOSE_INCOMPLETE"));
            requires_manual_review = some true;
          })
          3 TradeIntentState.close_requested
          (record intent_update {
            execution_client_request_id = request_id;
            acknowledged_at = some acknowledged_instant;
            completed_at = some order.executed_at;
            close_reason_code = some "close_incomplete";
            close_reason = some (or_text order.reason "Close did not complete fully.");
          })
          4 noted

    -- A result that is not final.
    unfoldable pub review_order : OrderState fl table → Attempt StoreError (OrderState fl table)
    unfolding put
    review_order st =
        move_both ExecutionStatus.needs_manual_review
          (record execution_update {
            acknowledged_at = some acknowledged_instant;
            reason =
                some (or_text order.reason "Broker result is not final; manual review required.");
            error_code = some (or_text order.error_code "BROKER_CONFIRMATION_AMBIGUOUS");
            requires_manual_review = some true;
            details = details_of (put "confirmation_ambiguous" (flag true) broker_result);
          })
          5 TradeIntentState.acknowledged
          (record intent_update {
            execution_client_request_id = request_id;
            acknowledged_at = some acknowledged_instant;
            decision_reason_code = some "broker_confirmation_ambiguous";
            decision_reason =
                some (or_text order.reason "Broker result is not final; manual review required.");
          })
          6 st

    -- A result that is final.
    unfoldable pub settle_order : OrderState fl table → Attempt StoreError (OrderState fl table)
    unfolding fill_status intent_state
    settle_order st =
        move_both (fill_status order.status)
          (record execution_update {
            completed_at = some order.executed_at;
            filled_size = filled_amount;
            average_fill_price = fill_price;
            reason = some (or_text order.reason completed_reason);
            error_code = order.error_code;
            requires_manual_review = some order.requires_manual_review;
          })
          7 (intent_state order.status)
          (record intent_update {
            average_fill_price = fill_price;
            filled_size = filled_amount;
            completed_at = some order.executed_at;
          })
          8 st

    unfoldable pub after_acknowledgement :
        OrderState fl table → Attempt StoreError (OrderState fl table)
    unfolding is_filled is_ambiguous
    after_acknowledgement st =
        if is_close && not (is_filled order.status)
        then review_close st
        else if is_ambiguous order.status
        then review_order st
        else settle_order st

    -- The whole call, from the rows `before`.
    unfoldable pub transition_from_broker_result : Attempt StoreError (OrderState fl table)
    transition_from_broker_result = do st ← acknowledge_order before; after_acknowledgement st
