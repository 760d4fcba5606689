-- ===== src/Orders/Retry.antt =====
-- The retry in `_prepare_execution` of backend/app/services/strategy_service.py.
use codex_trading_app.Prelude.{
  ℕ, String, ◌≡◌, refl, sym, ap, ◌∙◌, Bool, true, false, Option, none, some, arith, ok,
  returned_first,
}
use codex_trading_app.Lifecycle.ExecutionStatus.{ExecutionStatus, submission_pending, value, is_in}
use codex_trading_app.Lifecycle.Executions.{
  text, transitions, check_transition, validate_execution_transition,
}
use codex_trading_app.Lifecycle.Executions.Table.{Allowed, validation_never_legacy}
use codex_trading_app.Redaction.Payload.{Payload}
use codex_trading_app.Trades.Intent.{set_field}
use codex_trading_app.Trades.Executions.Record.{Execution, ExecutionUpdate, transitioned_execution}
use codex_trading_app.Trades.Executions.Events.{
  ExecutionEvent, transition_event, after_event, mark_audit_failure,
}
use codex_trading_app.Trades.Executions.Store.{changed_execution, transition_execution}
use codex_trading_app.Trades.Executions.Stages.{parsed_text}
use codex_trading_app.Trades.Executions.Runs.{status-changed}
use codex_trading_app.Orders.Request.{ExecutionRequest, status_in, retryable_execution_statuses}
use codex_trading_app.Orders.Prepare.{retry_update, retry}

-- Of the retryable statuses only one may be written again.
pending_of_repeated :
    (s : ExecutionStatus)
    → Allowed s s
    → status_in (value s) retryable_execution_statuses ≡ true
    → s ≡ submission_pending
unfolding check_transition transitions is_in value
pending_of_repeated submission_pending repeated retryable = refl
pending_of_repeated _ repeated retryable = ground (arith, repeated, retryable)

set_field_self : {A : Type 0} (a : Option A) → set_field a a ≡ a
set_field_self none = refl
set_field_self (some a) = refl

module _ {F : Type 0} where
  -- There is a prior execution that a retry may go on with.
  abbrev pub is_open : Option (Execution F) → Bool
  is_open none = false
  is_open (some prior) = status_in prior.status retryable_execution_statuses

  -- The execution that a send goes on with: a prior one of which nothing has been sent, under its own
  -- request id.
  abbrev pub Resumes : Execution F → Execution F → Type 0
  Resumes e prior =
      (prior.status ≡ value submission_pending)
      × (e.id ≡ prior.id)
      × (e.client_request_id ≡ prior.client_request_id)

module _ {F : Type 0} (lower substitute : String → String) (shown : Payload F → String)
    (is_recorded : ExecutionEvent F → Bool) (number_of : ℕ → F)
    (attempts_of : Option (Payload F) → ℕ) where
  pub identity-after_event :
      (event : Option (ExecutionEvent F)) (e : Execution F)
      → ((after_event is_recorded event e).id ≡ e.id)
        × ((after_event is_recorded event e).client_request_id ≡ e.client_request_id)
  unfolding after_event mark_audit_failure
  identity-after_event none e = (refl, refl)
  identity-after_event (some event) e = (ground arith, ground arith)

  -- A transition to the status that is stored already is possible only from the first status.
  repeated_pending :
      (prior : Execution F) (t : ExecutionStatus)
      → status_in prior.status retryable_execution_statuses ≡ true
      → validate_execution_transition (text prior.status) (text prior.status) ≡ ok t
      → (t ≡ submission_pending) × (prior.status ≡ value submission_pending)
  repeated_pending prior t retryable valid =
      let v = validation_never_legacy (text prior.status) (text prior.status) t valid in
      let (parsed, named) = parsed_text prior.status v.current v.parsed_current in
      let (parsed', named') = parsed_text prior.status t v.parsed_target in
      let same : v.current ≡ t = cc (parsed, parsed') in
      let pending = pending_of_repeated t (rw same at v.allowed) (rw named' retryable) in
      (pending, sym named' ∙ ap value pending)

  resumed :
      (u : ExecutionUpdate F) (request : ExecutionRequest F) (prior : Execution F)
      (t : ExecutionStatus)
      → (let after =
            (changed_execution lower substitute shown is_recorded u request.now request.later prior
              t).0 in
          (after.id ≡ prior.id)
          × (after.client_request_id ≡ set_field u.client_request_id prior.client_request_id))
  unfolding changed_execution transitioned_execution
  resumed u request prior t =
      identity-after_event
        (transition_event prior.status
          (transitioned_execution lower substitute shown t u request.now request.later prior))
        (transitioned_execution lower substitute shown t u request.now request.later prior)

  pub retry_sends :
      (request : ExecutionRequest F) (prior e : Execution F)
      → status_in prior.status retryable_execution_statuses ≡ true
      → retry lower substitute shown is_recorded number_of attempts_of request prior ≡ ok (e, true)
      → (e.status ≡ value submission_pending) × Resumes e prior
  unfolding retry transition_execution
  retry_sends request prior e retryable h =
      let u = retry_update lower substitute shown is_recorded number_of attempts_of request prior in
      let (result, moved, answer) =
        returned_first
          (transition_execution lower substitute shown is_recorded (text prior.status) u request.now
            request.later prior)
          _ h in
      let (t, valid, made) =
        returned_first (validate_execution_transition (text prior.status) (text prior.status)) _
          moved in
      let (pending, first) = repeated_pending prior t retryable valid in
      let after : (changed_execution lower substitute shown is_recorded u request.now request.later
            prior t).0
          ≡ e =
        cc (made, answer) in
      let kept = resumed u request prior t in
      rw (← after) (
        status-changed lower substitute shown is_recorded u request.now request.later prior t
            ∙ ap value pending,
        (first, kept.0, kept.1 ∙ set_field_self prior.client_request_id),
      )
