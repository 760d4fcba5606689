-- ===== src/Orders/Results.antt =====
-- A broker's results booked at concrete inputs (`_transition_execution_from_broker_result` of
-- backend/app/services/strategy_service.py), over ℕ for floats.
use codex_trading_app.Prelude.{
  ℕ, ◌≤◌, String, ◌≡◌, refl, Option, none, some, [], ◌∷◌, count, Attempt, ok, raised, arith, false,
}
use codex_trading_app.Prelude.Rows.{find_first, replace_first}
use codex_trading_app.Allocation.Whole.{whole}
use codex_trading_app.Lifecycle.ExecutionStatus
use codex_trading_app.Lifecycle.IntentState
use codex_trading_app.Trades.Intent.{TradeIntent, owns, owns_instrument, transitioned}
use codex_trading_app.Trades.Table.{clashes}
use codex_trading_app.Lifecycle.Intents.{validate_trade_intent_transition}
use codex_trading_app.Trades.Service.{StoreError, changed, commit_transition}
use codex_trading_app.Trades.Examples.{memory, intent}
use codex_trading_app.Orders.Result.{
  BrokerOrderStatus, BrokerOrderResult, partially_filled, filled, rejected, pending, is_partial,
}
use codex_trading_app.Orders.Outcome.{
  OrderState, move_both, acknowledge_order, note_partial_close, review_close, review_order,
  settle_order, after_acknowledgement, transition_from_broker_result,
}
use codex_trading_app.Orders.Accepted.{EndsIn}
use codex_trading_app.Orders.Booked.{booked_status, booked_state, result_booked}
use codex_trading_app.Orders.Examples.{prior_attempt, unchanged, shown, is_recorded}

abbrev order : BrokerOrderStatus → BrokerOrderResult ℕ
order s = record {
  broker_reference = "deal-7";
  size = 2;
  price = 11;
  executed_at = 40;
  client_request_id = none;
  status = s;
  requested_size = some 2;
  filled_size = some 1;
  average_fill_price = none;
  submitted_at = some 35;
  acknowledged_at = none;
  reason = none;
  error_code = none;
  error_message = none;
  requires_manual_review = false;
  execution_source = "simulated";
}

abbrev submitted_intent : TradeIntent ℕ
submitted_intent = record (intent "breakout" "EURUSD") { id = some 4; state = "SUBMITTED" }

-- An execution of a phase whose order has been sent, with its intent or without one.
abbrev submitted_order : String → Option (TradeIntent ℕ) → OrderState whole memory
submitted_order phase intent = record {
  execution = record (prior_attempt "ORDER_SUBMITTED" 30) { phase = phase };
  intent = intent;
  db = submitted_intent ∷ [];
}

abbrev written : ℕ → String
written t = "t"

abbrev reading : ℕ → ℕ
reading n = n

abbrev book :
    String
    → Option (TradeIntent ℕ)
    → BrokerOrderStatus
    → Attempt StoreError (OrderState whole memory)
book phase intent s =
    transition_from_broker_result whole memory unchanged unchanged shown is_recorded written reading
      (order s) "Opened." "Completed." (submitted_order phase intent)

abbrev state_of : Option (TradeIntent ℕ) → String
state_of none = "none"
state_of (some i) = i.state

abbrev ends_of : Attempt StoreError (OrderState whole memory) → Option (String × String)
ends_of (raised e) = none
ends_of (ok st) = some (st.execution.status, state_of st.intent)

-- An entry that is filled or open, a close in part, and an entry without an intent.
results_booked :
    ends_of (book "ENTRY" (some submitted_intent) filled)
      ∷ ends_of (book "ENTRY" (some submitted_intent) pending)
      ∷ ends_of (book "CLOSE" (some submitted_intent) partially_filled)
      ∷ ends_of (book "ENTRY" none rejected)
      ∷ []
    ≡ some ("FILL_FULL", "FILLED")
      ∷ some ("NEEDS_MANUAL_REVIEW", "ACKNOWLEDGED")
      ∷ some ("NEEDS_MANUAL_REVIEW", "CLOSE_REQUESTED")
      ∷ some ("FAILED", "none")
      ∷ []
unfolding transition_from_broker_result find_first acknowledge_order move_both commit_transition
    validate_trade_intent_transition IntentState.value changed clashes owns transitioned
    owns_instrument after_acknowledgement settle_order review_close review_order note_partial_close
    is_partial replace_first
results_booked = refl

one_owner : (i : String) → count (owns_instrument i) (memory.rows (submitted_intent ∷ [])) ≤ 1
one_owner i = ground arith

result_booked_example :
    EndsIn whole memory unchanged unchanged shown is_recorded written reading
      ExecutionStatus.needs_manual_review IntentState.close_requested
      (book "CLOSE" (some submitted_intent) partially_filled)
unfolding booked_status booked_state find_first ExecutionStatus.value IntentState.value
result_booked_example =
    result_booked whole memory unchanged unchanged shown is_recorded written reading
      (order partially_filled) "Opened." "Completed."
      (submitted_order "CLOSE" (some submitted_intent)) (refl, ((one_owner, refl), refl))
