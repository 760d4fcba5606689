-- ===== src/Orders/Examples.antt =====
-- Requests to send an order, for backend/app/services/strategy_service.py, over ℕ for floats.
use codex_trading_app.Prelude.{
  ℕ, String, ◌≡◌, refl, Bool, true, false, ◌⊎◌, inl, Option, none, some, List, [], ◌∷◌, Attempt, ok,
  raised,
}
use codex_trading_app.Prelude.Rows.{find_first}
use codex_trading_app.Lifecycle.ExecutionStatus.{
  submission_pending, order_submitted, needs_manual_review, value, is_in,
}
use codex_trading_app.Lifecycle.Errors.{LifecycleError, refused}
use codex_trading_app.Lifecycle.Executions.{refusal}
use codex_trading_app.Redaction.Payload.{Payload, number, text, end, field}
use codex_trading_app.Trades.Executions.Record.{Execution}
use codex_trading_app.Trades.Executions.Events.{ExecutionEvent}
use codex_trading_app.Orders.Request.{ExecutionRequest, find_latest_execution_for_action}
use codex_trading_app.Orders.Prepare.{prepare_execution}
use codex_trading_app.Orders.Retry.{is_open, Resumes}
use codex_trading_app.Orders.Resend.{only_unsent_is_sent}
use codex_trading_app.Orders.Review.{review_raises, duplicate_blocked, sent_statuses}

abbrev pub prior_attempt : String → ℕ → Execution ℕ
prior_attempt status at = record {
  id = some at;
  trade_intent_id = some 4;
  strategy_name = "breakout";
  instrument = "EURUSD";
  phase = "ENTRY";
  status = status;
  client_request_id = some "ent-0a";
  broker_reference = none;
  local_position_id = none;
  local_trade_id = none;
  signal_time = at;
  submitted_at = none;
  acknowledged_at = none;
  completed_at = none;
  last_transition_at = at;
  requested_size = some 2;
  filled_size = none;
  requested_price = none;
  average_fill_price = none;
  intended_risk_amount = none;
  submitted_risk_amount = none;
  fill_derived_risk_amount = none;
  risk_truth_confidence = none;
  reason = none;
  error_code = none;
  error_message = none;
  requires_manual_review = false;
  details = field "action_key" (text "entry:breakout:EURUSD:BUY") end;
  created_at = at;
  updated_at = at;
}

abbrev request : ExecutionRequest ℕ
request = record {
  strategy_name = "breakout";
  instrument = "EURUSD";
  phase = "ENTRY";
  action_key = "entry:breakout:EURUSD:BUY";
  signal_time = 30;
  requested_size = some 2;
  requested_price = some 11;
  reason = "Entry prepared";
  details = field "action_key" (text "entry:breakout:EURUSD:BUY") end;
  trade_intent_id = some 4;
  broker_reference = none;
  local_position_id = none;
  hex = "0b";
  now = 31;
  later = 32;
  written_now = "00:31";
}

abbrev pub unchanged : String → String
unchanged s = s

abbrev pub shown : Payload ℕ → String
shown payload = "?"

abbrev pub is_recorded : ExecutionEvent ℕ → Bool
is_recorded event = true

abbrev number_of : ℕ → ℕ
number_of n = n

abbrev attempts_of : Option (Payload ℕ) → ℕ
attempts_of (some (number n)) = n
attempts_of _ = 0

abbrev prepare : List (Execution ℕ) → Attempt LifecycleError (Execution ℕ × Bool)
prepare executions =
    prepare_execution unchanged unchanged shown is_recorded number_of attempts_of 9 request
      executions

-- What is answered, with the execution where there is one.
abbrev answer_of : Attempt LifecycleError (Execution ℕ × Bool) → Option (Option ℕ × String × Bool)
answer_of (raised e) = none
answer_of (ok (e, send)) = some (e.id, e.status, send)

-- The latest attempt of the action decides; a settled one is followed by a new one.
resumed_pending :
    answer_of (prepare (prior_attempt "FAILED" 1 ∷ prior_attempt "SUBMISSION_PENDING" 2 ∷ []))
    ≡ some (some 2, "SUBMISSION_PENDING", true)
unfolding prepare_execution find_first
resumed_pending = refl

new_after_failure :
    answer_of (prepare (prior_attempt "FAILED" 2 ∷ [])) ≡ some (some 9, "SUBMISSION_PENDING", true)
unfolding prepare_execution find_first
new_after_failure = refl

abbrev execution_or : Execution ℕ → Attempt LifecycleError (Execution ℕ × Bool) → Execution ℕ
execution_or e (raised problem) = e
execution_or e (ok (sent, send)) = sent

abbrev sent : Execution ℕ
sent = execution_or (prior_attempt "FAILED" 0) (prepare (prior_attempt "SUBMISSION_PENDING" 2 ∷ []))

sent_lem : prepare (prior_attempt "SUBMISSION_PENDING" 2 ∷ []) ≡ ok (sent, true)
unfolding prepare_execution find_first
sent_lem = refl

only_unsent_is_sent_example :
    let found =
      find_latest_execution_for_action request.strategy_name request.instrument request.phase
        request.action_key
        (prior_attempt "SUBMISSION_PENDING" 2 ∷ []) in
    (sent.status ≡ value submission_pending)
    × (((prior : Execution ℕ) × (found ≡ some prior) × Resumes sent prior)
        ⊎ ((sent.id ≡ some 9) × (is_open found ≡ false)))
only_unsent_is_sent_example =
    only_unsent_is_sent unchanged unchanged shown is_recorded number_of attempts_of 9 request
      (prior_attempt "SUBMISSION_PENDING" 2 ∷ []) sent sent_lem

found_lem :
    (status : String)
    → find_latest_execution_for_action request.strategy_name request.instrument request.phase
        request.action_key
        (prior_attempt status 2 ∷ [])
      ≡ some (prior_attempt status 2)
unfolding find_latest_execution_for_action find_first
found_lem status = refl

submitted_text : "ORDER_SUBMITTED" ≡ value order_submitted
unfolding value
submitted_text = refl

submitted_sent : is_in order_submitted sent_statuses ≡ true
unfolding is_in
submitted_sent = refl

review_text : "NEEDS_MANUAL_REVIEW" ≡ value needs_manual_review
unfolding value
review_text = refl

duplicate_blocked_example :
    (e : Execution ℕ) × (prepare (prior_attempt "ORDER_SUBMITTED" 2 ∷ []) ≡ ok (e, false))
    × (e.status ≡ value needs_manual_review)
duplicate_blocked_example =
    duplicate_blocked unchanged unchanged shown is_recorded number_of attempts_of 9 request
      (prior_attempt "ORDER_SUBMITTED" 2 ∷ []) (prior_attempt "ORDER_SUBMITTED" 2) order_submitted
      (inl refl) (found_lem "ORDER_SUBMITTED") submitted_text submitted_sent

review_raises_example :
    prepare (prior_attempt "NEEDS_MANUAL_REVIEW" 2 ∷ [])
    ≡ raised (refused (refusal needs_manual_review needs_manual_review))
review_raises_example =
    review_raises unchanged unchanged shown is_recorded number_of attempts_of 9 request
      (prior_attempt "NEEDS_MANUAL_REVIEW" 2 ∷ []) (prior_attempt "NEEDS_MANUAL_REVIEW" 2)
      (found_lem "NEEDS_MANUAL_REVIEW") review_text
