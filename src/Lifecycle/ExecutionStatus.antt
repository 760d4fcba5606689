-- ===== src/Lifecycle/ExecutionStatus.antt =====
-- `ExecutionStatus` of backend/app/models/trade.py and its values.
use codex_trading_app.Prelude.{
  ℕ, String, str_eq, Bool, Option, none, some, List, [], ◌∷◌, any, ◌==◌, if◌then◌else◌,
}

pub data ExecutionStatus : Type 0 where
  submission_pending signal_generated risk_approved risk_rejected : ExecutionStatus
  order_submitted order_acknowledged fill_partial fill_full : ExecutionStatus
  position_opened close_requested close_confirmed failed cancelled : ExecutionStatus
  needs_manual_review : ExecutionStatus

unfoldable pub value : ExecutionStatus → String
value submission_pending = "SUBMISSION_PENDING"
value signal_generated = "SIGNAL_GENERATED"
value risk_approved = "RISK_APPROVED"
value risk_rejected = "RISK_REJECTED"
value order_submitted = "ORDER_SUBMITTED"
value order_acknowledged = "ORDER_ACKNOWLEDGED"
value fill_partial = "FILL_PARTIAL"
value fill_full = "FILL_FULL"
value position_opened = "POSITION_OPENED"
value close_requested = "CLOSE_REQUESTED"
value close_confirmed = "CLOSE_CONFIRMED"
value failed = "FAILED"
value cancelled = "CANCELLED"
value needs_manual_review = "NEEDS_MANUAL_REVIEW"

-- `for status in ExecutionStatus`
abbrev pub members : List ExecutionStatus
members =
    submission_pending ∷ signal_generated ∷ risk_approved ∷ risk_rejected ∷ order_submitted
    ∷ order_acknowledged ∷ fill_partial ∷ fill_full ∷ position_opened ∷ close_requested
    ∷ close_confirmed ∷ failed ∷ cancelled ∷ needs_manual_review ∷ []

-- The place of a member in the definition, by which members are told apart.
unfoldable pub place : ExecutionStatus → ℕ
place submission_pending = 0
place signal_generated = 1
place risk_approved = 2
place risk_rejected = 3
place order_submitted = 4
place order_acknowledged = 5
place fill_partial = 6
place fill_full = 7
place position_opened = 8
place close_requested = 9
place close_confirmed = 10
place failed = 11
place cancelled = 12
place needs_manual_review = 13

-- `status in statuses`
unfoldable pub is_in : ExecutionStatus → List ExecutionStatus → Bool
unfolding place
is_in s statuses = any (λ t. place s == place t) statuses

-- `ExecutionStatus(value)`: the member with that value, or `none` for the ValueError.
unfoldable pub find_value : String → List ExecutionStatus → Option ExecutionStatus
find_value text [] = none
find_value text (s ∷ rest) = if str_eq (value s) text then some s else find_value text rest

unfoldable pub of_value : String → Option ExecutionStatus
unfolding find_value
of_value text = find_value text members
