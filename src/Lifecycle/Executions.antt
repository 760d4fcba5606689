-- ===== src/Lifecycle/Executions.antt =====
-- The transition table of execution attempts and its validation:
-- backend/app/services/lifecycle_rules.py.
pub mod Table
mod Examples
use codex_trading_app.Prelude.{
  String, Bool, Option, none, some, List, [], ◌∷◌, map, Attempt, ok, raised, ◌>>=◌, str_ltb,
  if◌then◌else◌,
}
use codex_trading_app.Prelude.Sort.{sorted}
use codex_trading_app.Lifecycle.ExecutionStatus.{
  ExecutionStatus, submission_pending, signal_generated, risk_approved, risk_rejected,
  order_submitted, order_acknowledged, fill_partial, fill_full, position_opened, close_requested,
  close_confirmed, failed, cancelled, needs_manual_review, value, is_in, of_value,
}
use codex_trading_app.Lifecycle.Errors.{
  LifecycleTransitionError, LifecycleError, unknown_value, refused, legacy_write,
}

-- `EXECUTION_LEGACY_COMPATIBILITY_STATUSES`
abbrev pub legacy_compatibility_statuses : List ExecutionStatus
legacy_compatibility_statuses =
    signal_generated ∷ risk_approved ∷ risk_rejected ∷ close_requested ∷ []

-- `EXECUTION_TERMINAL_STATUSES`
abbrev pub terminal_statuses : List ExecutionStatus
terminal_statuses = position_opened ∷ close_confirmed ∷ failed ∷ cancelled ∷ []

-- `EXECUTION_TRANSITIONS`
unfoldable pub transitions : ExecutionStatus → List ExecutionStatus
transitions submission_pending =
    submission_pending ∷ order_submitted ∷ failed ∷ cancelled ∷ needs_manual_review ∷ []
transitions signal_generated = []
transitions risk_approved = []
transitions risk_rejected = []
transitions order_submitted = order_acknowledged ∷ failed ∷ cancelled ∷ needs_manual_review ∷ []
transitions order_acknowledged =
    fill_partial ∷ fill_full ∷ failed ∷ cancelled ∷ needs_manual_review ∷ []
transitions fill_partial = needs_manual_review ∷ []
transitions fill_full = position_opened ∷ close_confirmed ∷ []
transitions position_opened = position_opened ∷ []
transitions close_requested = []
transitions close_confirmed = close_confirmed ∷ []
transitions failed = failed ∷ []
transitions cancelled = cancelled ∷ []
transitions needs_manual_review = position_opened ∷ []

-- `ExecutionStatus | str`
pub data StatusInput : Type 0 where
  member : ExecutionStatus → StatusInput
  text : String → StatusInput

-- The lookup by value, with its ValueError reported.
unfoldable pub known : String → Option ExecutionStatus → Attempt LifecycleError ExecutionStatus
known given none = raised (unknown_value given)
known given (some s) = ok s

unfoldable pub parse_execution_status : StatusInput → Attempt LifecycleError ExecutionStatus
unfolding known of_value
parse_execution_status (member s) = ok s
parse_execution_status (text given) = known given (of_value given)

-- The check of `validate_new_execution_status`, on a parsed status.
unfoldable pub check_new : ExecutionStatus → Attempt LifecycleError ExecutionStatus
unfolding is_in
check_new target =
    if is_in target legacy_compatibility_statuses
    then raised (legacy_write (record { entity_name = "Execution"; target_state = value target }))
    else ok target

unfoldable pub validate_new_execution_status : StatusInput → Attempt LifecycleError ExecutionStatus
unfolding parse_execution_status check_new
validate_new_execution_status target_status = do
  target ← parse_execution_status target_status
  check_new target

-- The two reasons of a refusal.
unfoldable pub refusal_reason : ExecutionStatus → String
unfolding is_in
refusal_reason current =
    if is_in current terminal_statuses
    then "terminal execution attempts cannot reactivate"
    else "transition is not classified as valid"

-- `sorted(allowed, key=str)`: the names behind one prefix, so by value.
sorted_values : List ExecutionStatus → List String
unfolding sorted value
sorted_values statuses = sorted str_ltb (map value statuses)

-- The error of a refusal.
unfoldable pub refusal : ExecutionStatus → ExecutionStatus → LifecycleTransitionError
unfolding refusal_reason sorted_values
refusal current target = record {
  entity_name = "Execution";
  current_state = value current;
  target_state = value target;
  allowed_targets = sorted_values (transitions current);
  reason = refusal_reason current;
}

-- The check of `validate_execution_transition`, on parsed statuses.
unfoldable pub check_transition :
    ExecutionStatus → ExecutionStatus → Attempt LifecycleError ExecutionStatus
unfolding transitions is_in
check_transition current target =
    if is_in target (transitions current)
    then ok target
    else raised (refused (refusal current target))

unfoldable pub validate_execution_transition :
    StatusInput → StatusInput → Attempt LifecycleError ExecutionStatus
unfolding parse_execution_status validate_new_execution_status check_transition
validate_execution_transition current_status target_status = do
  current ← parse_execution_status current_status
  target ← validate_new_execution_status target_status
  check_transition current target
