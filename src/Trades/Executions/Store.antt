-- ===== src/Trades/Executions/Store.antt =====
-- `create_execution` and `transition_execution` of backend/app/services/trade_service.py. Rows of the
-- table are found by their key alone and no constraint refuses one, so a call is a function of its
-- row; a refused call leaves it.
use codex_trading_app.Prelude.{
  ℕ, String, str_eq, Bool, true, false, ◌&&◌, Option, none, some, Attempt, ok, ◌>>=◌, if◌then◌else◌,
}
use codex_trading_app.Lifecycle.ExecutionStatus.{ExecutionStatus, submission_pending, value}
use codex_trading_app.Lifecycle.Errors.{LifecycleError}
use codex_trading_app.Lifecycle.Executions.{
  StatusInput, text, validate_new_execution_status, validate_execution_transition,
}
use codex_trading_app.Redaction.Payload.{Payload}
use codex_trading_app.Trades.Executions.Record.{
  Execution, ExecutionUpdate, sanitize_execution, transitioned_execution,
}
use codex_trading_app.Trades.Executions.Events.{
  ExecutionEvent, transition_event, created_event, after_event,
}

-- `value is None`
abbrev is_missing : Option ℕ → Bool
is_missing none = true
is_missing (some n) = false

module _ {F : Type 0} (lower substitute : String → String) (shown : Payload F → String)
    (is_recorded : ExecutionEvent F → Bool) where
  -- The new row as it is inserted.
  unfoldable pub new_execution : Execution F → ExecutionStatus → Execution F
  unfolding sanitize_execution value
  new_execution execution status = sanitize_execution lower substitute shown (record execution {
    status = value status;
    last_transition_at =
        if str_eq (value status) (value submission_pending)
          && is_missing execution.submitted_at
          && is_missing execution.acknowledged_at
          && is_missing execution.completed_at
        then execution.signal_time
        else execution.last_transition_at;
  })

  -- The commit of a new row, which gives it its key, and its event.
  unfoldable pub stored : ℕ → Execution F → Execution F × Option (ExecutionEvent F)
  unfolding created_event after_event
  stored new_id row =
      let kept = record row { id = some new_id } in
      let event = created_event kept in (after_event is_recorded event kept, event)

  unfoldable pub create_execution :
      ℕ → Execution F → Attempt LifecycleError (Execution F × Option (ExecutionEvent F))
  unfolding new_execution stored validate_new_execution_status
  create_execution new_id execution = do
    status ← validate_new_execution_status (text execution.status)
    ok (stored new_id (new_execution execution status))

  -- The commit of a transition and its event.
  unfoldable pub changed_execution :
      ExecutionUpdate F
      → ℕ
      → ℕ
      → Execution F
      → ExecutionStatus
      → Execution F × Option (ExecutionEvent F)
  unfolding transitioned_execution transition_event after_event
  changed_execution u now later execution next =
      let row = transitioned_execution lower substitute shown next u now later execution in
      let event = transition_event execution.status row in
      (after_event is_recorded event row, event)

  unfoldable pub transition_execution :
      StatusInput
      → ExecutionUpdate F
      → ℕ
      → ℕ
      → Execution F
      → Attempt LifecycleError (Execution F × Option (ExecutionEvent F))
  unfolding changed_execution validate_execution_transition
  transition_execution status u now later execution = do
    next ← validate_execution_transition (text execution.status) status
    ok (changed_execution u now later execution next)
