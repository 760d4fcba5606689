-- ===== src/Trades/Executions/Events.antt =====
-- The domain events of execution attempts: `_record_execution_domain_event` and
-- `_record_execution_created_domain_event` of backend/app/services/trade_service.py.
use codex_trading_app.Prelude.{String, str_eq, Bool, Option, none, some, if◌then◌else◌}
use codex_trading_app.Lifecycle.ExecutionStatus.{
  ExecutionStatus, submission_pending, order_submitted, order_acknowledged, fill_partial, fill_full,
  position_opened, close_confirmed, failed, cancelled, needs_manual_review, value, of_value,
}
use codex_trading_app.Redaction.Payload.{
  Payload, text, null, mapping, sequence, flag, Fields, end, field, Items, nil, cons,
}
use codex_trading_app.Trades.Executions.Record.{Execution, put}
use codex_trading_app.Prelude.{true}

pub record EventMetadata : Type 0 where
  pub event_type : String
  pub severity : String
  pub title : String

abbrev metadata : String → String → String → Option EventMetadata
metadata event_type severity title =
    some (record { event_type = event_type; severity = severity; title = title })

-- The dictionary of event metadata; its category is always "execution".
unfoldable pub event_metadata : ExecutionStatus → Option EventMetadata
event_metadata order_submitted = metadata "execution.order_submitted" "info" "Order submitted"
event_metadata order_acknowledged =
    metadata "execution.order_acknowledged" "info" "Broker acknowledged order"
event_metadata fill_partial = metadata "execution.fill_received" "warning" "Partial fill received"
event_metadata fill_full = metadata "execution.fill_received" "info" "Fill received"
event_metadata position_opened = metadata "execution.position_opened" "info" "Position opened"
event_metadata close_confirmed = metadata "execution.position_closed" "info" "Position closed"
event_metadata failed = metadata "execution.order_rejected" "error" "Order failed"
event_metadata cancelled = metadata "execution.order_rejected" "warning" "Order cancelled"
event_metadata needs_manual_review =
    metadata "execution.order_rejected" "error" "Execution needs manual review"
event_metadata _ = none

-- The metadata of a status by its text: the keys of the dictionary are values of the enum.
unfoldable pub metadata_of : Option ExecutionStatus → Option EventMetadata
unfolding event_metadata
metadata_of none = none
metadata_of (some s) = event_metadata s

-- An event, with the row that its payload is read from.
pub record ExecutionEvent (F : Type 0) : Type 0 where
  pub metadata : EventMetadata
  pub source : String
  pub error_type : Option String
  pub message : Option String
  pub previous_state : String
  pub execution : Execution F

-- `a or b` on texts that may be missing: an empty one counts as missing.
abbrev pub text_or : Option String → Option String → Option String
text_or none b = b
text_or (some a) b = if str_eq a "" then b else some a

module _ {F : Type 0} where
  -- `error_type`
  unfoldable pub error_type : Execution F → Option String
  unfolding value
  error_type e = text_or e.error_code (
      text_or
        (if str_eq e.status (value needs_manual_review) then some "ManualReviewRequired" else none)
        (if str_eq e.status (value failed) then some "ExecutionFailed" else none))

  unfoldable pub transition_event_of :
      String → Execution F → Option EventMetadata → Option (ExecutionEvent F)
  unfolding error_type
  transition_event_of previous e none = none
  transition_event_of previous e (some m) = some (record {
    metadata = m;
    source = "trade_service.transition_execution";
    error_type = error_type e;
    message = text_or e.error_message e.reason;
    previous_state = previous;
    execution = e;
  })

  -- The event that `_record_execution_domain_event` hands over, if any.
  unfoldable pub transition_event : String → Execution F → Option (ExecutionEvent F)
  unfolding transition_event_of metadata_of of_value
  transition_event previous e =
      if str_eq previous e.status
      then none
      else transition_event_of previous e (metadata_of (of_value e.status))

  -- The event of a new attempt.
  unfoldable pub created_event : Execution F → Option (ExecutionEvent F)
  unfolding value
  created_event e =
      if str_eq e.status (value submission_pending)
      then some (record {
        metadata = record {
          event_type = "execution.submission_pending_created";
          severity = "info";
          title = "Execution attempt created";
        };
        source = "trade_service.create_execution";
        error_type = none;
        message = e.reason;
        previous_state = "NOT_CREATED";
        execution = e;
      })
      else none

  unfoldable pub find_field : String → Fields F → Option (Payload F)
  find_field key end = none
  find_field key (field k v entries) =
      let rest = find_field key entries in if str_eq k key then some v else rest

  unfoldable pub append_item : Items F → Payload F → Items F
  append_item nil item = cons item nil
  append_item (cons x items) item = cons x (append_item items item)

  -- `list(details.get("audit_event_failures") or [])`, of the lists that are stored there.
  unfoldable pub failures_of : Option (Payload F) → Items F
  failures_of (some (sequence items)) = items
  failures_of _ = nil

  abbrev optional_text : Option String → Payload F
  optional_text none = null
  optional_text (some t) = text t

  -- `_mark_execution_audit_persistence_failure`
  unfoldable pub mark_audit_failure : ExecutionEvent F → Execution F → Execution F
  unfolding put find_field append_item failures_of
  mark_audit_failure event e = record e {
    details =
        put "audit_event_failures"
          (sequence (
            append_item (failures_of (find_field "audit_event_failures" e.details)) (
              mapping (
                field "event_type" (text event.metadata.event_type) (
                  field "source" (text event.source) (
                    field "previous_state" (text event.previous_state) (
                      field "new_state" (text e.status)
                        (field "correlation_id" (optional_text e.client_request_id) end))))))))
          (put "domain_event_persistence_failed" (flag true) e.details);
  }

  -- The row after its event has been handed over; `is_recorded` says whether the event is stored.
  unfoldable pub after_event :
      (ExecutionEvent F → Bool) → Option (ExecutionEvent F) → Execution F → Execution F
  unfolding mark_audit_failure
  after_event is_recorded none e = e
  after_event is_recorded (some event) e =
      if is_recorded event then e else mark_audit_failure event e
