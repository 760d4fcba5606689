-- ===== src/Orders/Booked.antt =====
-- What a broker's result leaves: `_transition_execution_from_broker_result` of
-- backend/app/services/strategy_service.py from an order that has been submitted.
use codex_trading_app.Prelude.{
  ℕ, String, str_eq, ◌≡◌, refl, Bool, true, false, not, ◌&&◌, Attempt, ok, Bool-cases, inl, inr,
  if◌then◌else◌,
}
use codex_trading_app.Allocation.Floats.{Floats}
use codex_trading_app.Lifecycle.ExecutionStatus.{ExecutionStatus}
use codex_trading_app.Lifecycle.IntentState.{TradeIntentState}
use codex_trading_app.Lifecycle.Executions.{check_new, check_transition}
use codex_trading_app.Lifecycle.Executions.Table.{Allowed}
use codex_trading_app.Lifecycle.Intents
use codex_trading_app.Lifecycle.Intents.Table
use codex_trading_app.Redaction.Payload.{Payload}
use codex_trading_app.Trades.Table.{IntentTable}
use codex_trading_app.Trades.Service.{StoreError}
use codex_trading_app.Trades.Executions.Events.{ExecutionEvent}
use codex_trading_app.Orders.Request.{close_phase}
use codex_trading_app.Orders.Result.{
  BrokerOrderStatus, BrokerOrderResult, acknowledged, partially_filled, filled, cancelled, rejected,
  failed, is_ambiguous, is_filled, is_partial, fill_status, intent_state,
}
use codex_trading_app.Orders.Outcome.{
  OrderState, acknowledge_order, note_partial_close, review_close, review_order, settle_order,
  after_acknowledgement, transition_from_broker_result,
}
use codex_trading_app.Orders.Accepted.{In, EndsIn, move_execution-EndsIn, move_both-EndsIn}

-- Where an execution ends, by the phase and the status that the broker reports.
unfoldable pub booked_status : Bool → BrokerOrderStatus → ExecutionStatus
booked_status close filled = ExecutionStatus.fill_full
booked_status true status = ExecutionStatus.needs_manual_review
booked_status false partially_filled = ExecutionStatus.fill_partial
booked_status false cancelled = ExecutionStatus.cancelled
booked_status false rejected = ExecutionStatus.failed
booked_status false failed = ExecutionStatus.failed
booked_status false status = ExecutionStatus.needs_manual_review

-- Where its intent ends.
unfoldable pub booked_state : Bool → BrokerOrderStatus → TradeIntentState
booked_state close filled = TradeIntentState.filled
booked_state true status = TradeIntentState.close_requested
booked_state false partially_filled = TradeIntentState.partially_filled
booked_state false cancelled = TradeIntentState.cancelled
booked_state false rejected = TradeIntentState.failed
booked_state false failed = TradeIntentState.failed
booked_state false status = TradeIntentState.acknowledged

booked_table :
    (close : Bool) (s : BrokerOrderStatus)
    → (booked_status close s ≡ (
        if close && not (is_filled s)
        then ExecutionStatus.needs_manual_review
        else if is_ambiguous s
        then ExecutionStatus.needs_manual_review
        else fill_status s))
      × (booked_state close s ≡ (
          if close && not (is_filled s)
          then TradeIntentState.close_requested
          else if is_ambiguous s
          then TradeIntentState.acknowledged
          else intent_state s))
unfolding booked_status booked_state is_filled is_ambiguous fill_status intent_state
booked_table true acknowledged = (refl, refl)
booked_table false acknowledged = (refl, refl)
booked_table true _ = (refl, refl)
booked_table false _ = (refl, refl)

fill_status-Allowed :
    (s : BrokerOrderStatus)
    → Allowed ExecutionStatus.order_acknowledged (fill_status s)
      × (check_new (fill_status s) ≡ ok (fill_status s))
unfolding check_transition check_new fill_status
fill_status-Allowed acknowledged = (refl, refl)
fill_status-Allowed _ = (refl, refl)

intent_state-Allowed :
    (s : BrokerOrderStatus) → Table.Allowed TradeIntentState.acknowledged (intent_state s)
unfolding Intents.check_transition intent_state
intent_state-Allowed acknowledged = refl
intent_state-Allowed _ = refl

module _ (fl : Floats) (table : IntentTable fl.F) (lower substitute : String → String)
    (shown : Payload fl.F → String) (is_recorded : ExecutionEvent fl.F → Bool)
    (isoformat : ℕ → String) (clock : ℕ → ℕ) (order : BrokerOrderResult fl.F)
    (opened_reason completed_reason : String) (before : OrderState fl table) where
  abbrev Ends :
      ExecutionStatus → TradeIntentState → Attempt StoreError (OrderState fl table) → Type 0
  Ends s i answer = EndsIn fl table lower substitute shown is_recorded isoformat clock s i answer

  abbrev At : ExecutionStatus → TradeIntentState → OrderState fl table → Type 0
  At s i st = In fl table lower substitute shown is_recorded isoformat clock s i st

  acknowledge_order-Ends :
      (st : OrderState fl table)
      → At ExecutionStatus.order_submitted TradeIntentState.submitted st
      → Ends ExecutionStatus.order_acknowledged TradeIntentState.acknowledged (
          acknowledge_order fl table lower substitute shown is_recorded isoformat clock order
            opened_reason completed_reason before st)
  unfolding acknowledge_order check_transition check_new Intents.check_transition
  acknowledge_order-Ends st there =
      move_both-EndsIn fl table lower substitute shown is_recorded isoformat clock
        ExecutionStatus.order_submitted ExecutionStatus.order_acknowledged
        TradeIntentState.submitted TradeIntentState.acknowledged _ 0 _ 1 st refl refl refl there

  review_order-Ends :
      (st : OrderState fl table)
      → At ExecutionStatus.order_acknowledged TradeIntentState.acknowledged st
      → Ends ExecutionStatus.needs_manual_review TradeIntentState.acknowledged (
          review_order fl table lower substitute shown is_recorded isoformat clock order
            opened_reason completed_reason before st)
  unfolding review_order check_transition check_new Intents.check_transition
  review_order-Ends st there =
      move_both-EndsIn fl table lower substitute shown is_recorded isoformat clock
        ExecutionStatus.order_acknowledged ExecutionStatus.needs_manual_review
        TradeIntentState.acknowledged TradeIntentState.acknowledged _ 5 _ 6 st refl refl refl there

  settle_order-Ends :
      (st : OrderState fl table)
      → At ExecutionStatus.order_acknowledged TradeIntentState.acknowledged st
      → Ends (fill_status order.status) (intent_state order.status) (
          settle_order fl table lower substitute shown is_recorded isoformat clock order
            opened_reason completed_reason before st)
  unfolding settle_order
  settle_order-Ends st there =
      move_both-EndsIn fl table lower substitute shown is_recorded isoformat clock
        ExecutionStatus.order_acknowledged (fill_status order.status) TradeIntentState.acknowledged
        (intent_state order.status) _ 7 _ 8 st (fill_status-Allowed order.status).0
        (fill_status-Allowed order.status).1 (intent_state-Allowed order.status) there

  note_partial_close-Ends :
      (st : OrderState fl table)
      → is_partial order.status ≡ true
      → At ExecutionStatus.order_acknowledged TradeIntentState.acknowledged st
      → Ends ExecutionStatus.fill_partial TradeIntentState.acknowledged (
          note_partial_close fl table lower substitute shown is_recorded isoformat clock order
            opened_reason completed_reason before st)
  unfolding note_partial_close check_transition check_new
  note_partial_close-Ends st part there = rw part (
      move_execution-EndsIn fl table lower substitute shown is_recorded isoformat clock
        ExecutionStatus.order_acknowledged ExecutionStatus.fill_partial
        TradeIntentState.acknowledged _ 2 st refl refl there)

  note_partial_close_whole :
      (st : OrderState fl table)
      → is_partial order.status ≡ false
      → note_partial_close fl table lower substitute shown is_recorded isoformat clock order
          opened_reason completed_reason before st
        ≡ ok st
  unfolding note_partial_close
  note_partial_close_whole st whole = rw whole refl

  -- An incomplete close goes to review, by way of a partial fill if there is one.
  review_close-Ends :
      (st : OrderState fl table)
      → At ExecutionStatus.order_acknowledged TradeIntentState.acknowledged st
      → Ends ExecutionStatus.needs_manual_review TradeIntentState.close_requested (
          review_close fl table lower substitute shown is_recorded isoformat clock order
            opened_reason completed_reason before st)
  unfolding review_close check_transition check_new Intents.check_transition
  review_close-Ends st there = elim (Bool-cases (is_partial order.status)) [
    | inr whole ↦ rw (note_partial_close_whole st whole) (
        move_both-EndsIn fl table lower substitute shown is_recorded isoformat clock
          ExecutionStatus.order_acknowledged ExecutionStatus.needs_manual_review
          TradeIntentState.acknowledged TradeIntentState.close_requested _ 3 _ 4 st refl refl refl
          there)
    | inl part ↦
        let (noted, done, at) = note_partial_close-Ends st part there in
        rw done (
          move_both-EndsIn fl table lower substitute shown is_recorded isoformat clock
            ExecutionStatus.fill_partial ExecutionStatus.needs_manual_review
            TradeIntentState.acknowledged TradeIntentState.close_requested _ 3 _ 4 noted refl refl
            refl at)
  ]

  after_acknowledgement-Ends :
      (st : OrderState fl table)
      → At ExecutionStatus.order_acknowledged TradeIntentState.acknowledged st
      → Ends
          (booked_status (str_eq before.execution.phase close_phase) order.status)
          (booked_state (str_eq before.execution.phase close_phase) order.status)
          (after_acknowledgement fl table lower substitute shown is_recorded isoformat clock order
            opened_reason completed_reason before st)
  unfolding after_acknowledgement
  after_acknowledgement-Ends st there =
      let close = str_eq before.execution.phase close_phase in
      let table' = booked_table close order.status in
      rw (table'.0, table'.1)
        (elim (Bool-cases (close && not (is_filled order.status))) [
          | inl incomplete ↦ rw incomplete (review_close-Ends st there)
          | inr complete ↦ elim (Bool-cases (is_ambiguous order.status)) [
            | inl open_end ↦ rw (complete, open_end) (review_order-Ends st there)
            | inr final ↦ rw (complete, final) (settle_order-Ends st there)
          ]
        ])

  -- A broker's result is never refused by the state machines: for an execution in ORDER_SUBMITTED and
  -- its intent, if there is one, in SUBMITTED, as the table has it and with no two owners of an
  -- instrument, every result is booked without an error. A filled order ends in FILL_FULL and FILLED;
  -- any other result of a close in NEEDS_MANUAL_REVIEW and CLOSE_REQUESTED; of an entry, a partial
  -- fill in FILL_PARTIAL and PARTIALLY_FILLED, a cancelled order in CANCELLED and CANCELLED, a
  -- rejected or failed one in FAILED and FAILED, and a result that is not final in
  -- NEEDS_MANUAL_REVIEW and ACKNOWLEDGED. The intent is then as the table has it.
  pub result_booked :
      In fl table lower substitute shown is_recorded isoformat clock ExecutionStatus.order_submitted
        TradeIntentState.submitted before
      → EndsIn fl table lower substitute shown is_recorded isoformat clock
          (booked_status (str_eq before.execution.phase close_phase) order.status)
          (booked_state (str_eq before.execution.phase close_phase) order.status)
          (transition_from_broker_result fl table lower substitute shown is_recorded isoformat clock
            order opened_reason completed_reason before)
  unfolding transition_from_broker_result
  result_booked there =
      let (acked, done, at) = acknowledge_order-Ends before there in
      rw done (after_acknowledgement-Ends acked at)
