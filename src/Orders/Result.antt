-- ===== src/Orders/Result.antt =====
-- `BrokerOrderResult` and `BrokerOrderStatus` of backend/app/core/broker.py, and how
-- backend/app/services/strategy_service.py reads them.
use codex_trading_app.Prelude.{ℕ, String, Bool, true, false, Option, none, some}
use codex_trading_app.Lifecycle.ExecutionStatus.{ExecutionStatus}
use codex_trading_app.Lifecycle.IntentState.{TradeIntentState}
use codex_trading_app.Redaction.Payload.{Payload, null, flag, number, text, Fields, end, field}

pub data BrokerOrderStatus : Type 0 where
  acknowledged pending timed_out rate_limited unknown ambiguous : BrokerOrderStatus
  partially_filled filled cancelled rejected failed : BrokerOrderStatus

unfoldable pub order_status_value : BrokerOrderStatus → String
order_status_value acknowledged = "ACKNOWLEDGED"
order_status_value pending = "PENDING"
order_status_value timed_out = "TIMED_OUT"
order_status_value rate_limited = "RATE_LIMITED"
order_status_value unknown = "UNKNOWN"
order_status_value ambiguous = "AMBIGUOUS"
order_status_value partially_filled = "PARTIALLY_FILLED"
order_status_value filled = "FILLED"
order_status_value cancelled = "CANCELLED"
order_status_value rejected = "REJECTED"
order_status_value failed = "FAILED"

-- `status in AMBIGUOUS_BROKER_ORDER_STATUSES`
unfoldable pub is_ambiguous : BrokerOrderStatus → Bool
is_ambiguous acknowledged = true
is_ambiguous pending = true
is_ambiguous timed_out = true
is_ambiguous rate_limited = true
is_ambiguous unknown = true
is_ambiguous ambiguous = true
is_ambiguous _ = false

unfoldable pub is_filled : BrokerOrderStatus → Bool
is_filled filled = true
is_filled _ = false

unfoldable pub is_partial : BrokerOrderStatus → Bool
is_partial partially_filled = true
is_partial _ = false

-- `fill_status`
unfoldable pub fill_status : BrokerOrderStatus → ExecutionStatus
fill_status partially_filled = ExecutionStatus.fill_partial
fill_status rejected = ExecutionStatus.failed
fill_status failed = ExecutionStatus.failed
fill_status cancelled = ExecutionStatus.cancelled
fill_status _ = ExecutionStatus.fill_full

-- `intent_state`
unfoldable pub intent_state : BrokerOrderStatus → TradeIntentState
intent_state partially_filled = TradeIntentState.partially_filled
intent_state rejected = TradeIntentState.failed
intent_state failed = TradeIntentState.failed
intent_state cancelled = TradeIntentState.cancelled
intent_state _ = TradeIntentState.filled

-- The fields that the code reads; `execution_source` is the text of the enum's value.
pub record BrokerOrderResult (F : Type 0) : Type 0 where
  pub broker_reference : String
  pub size : F
  pub price : F
  pub executed_at : ℕ
  pub client_request_id : Option String
  pub status : BrokerOrderStatus
  pub requested_size : Option F
  pub filled_size : Option F
  pub average_fill_price : Option F
  pub submitted_at : Option ℕ
  pub acknowledged_at : Option ℕ
  pub reason : Option String
  pub error_code : Option String
  pub error_message : Option String
  pub requires_manual_review : Bool
  pub execution_source : String

module _ {F : Type 0} where
  abbrev text_payload : Option String → Payload F
  text_payload none = null
  text_payload (some t) = text t

  abbrev number_payload : Option F → Payload F
  number_payload none = null
  number_payload (some x) = number x

  abbrev instant_payload : (ℕ → String) → Option ℕ → Payload F
  instant_payload isoformat none = null
  instant_payload isoformat (some t) = text (isoformat t)

  -- `_broker_result_payload`
  unfoldable pub broker_result_payload :
      (ℕ → String) → BrokerOrderResult F → Option String → Fields F
  unfolding order_status_value
  broker_result_payload isoformat order client_request_id =
      field "status" (text (order_status_value order.status)) (
        field "execution_source" (text order.execution_source) (
          field "client_request_id" (text_payload client_request_id) (
            field "broker_reference" (text order.broker_reference) (
              field "requested_size" (number_payload order.requested_size) (
                field "filled_size" (number_payload order.filled_size) (
                  field "average_fill_price" (number_payload order.average_fill_price) (
                    field "submitted_at" (instant_payload isoformat order.submitted_at) (
                      field "acknowledged_at" (instant_payload isoformat order.acknowledged_at) (
                        field "executed_at" (text (isoformat order.executed_at)) (
                          field "reason" (text_payload order.reason) (
                            field "error_code" (text_payload order.error_code) (
                              field "error_message" (text_payload order.error_message) (
                                field "requires_manual_review" (flag order.requires_manual_review)
                                  end)))))))))))))
