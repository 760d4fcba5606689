-- ===== src/Trades/Executions/Record.antt =====
-- A row of `Execution` (backend/app/models/trade.py), and what a transition of
-- backend/app/services/trade_service.py writes to it. `F` is the type of floats.
use codex_trading_app.Prelude.{ℕ, String, str_eq, Bool, Option, none, some, if◌then◌else◌}
use codex_trading_app.Lifecycle.ExecutionStatus.{ExecutionStatus, value}
use codex_trading_app.Redaction.Payload.{Payload, Fields, end, field}
use codex_trading_app.Redaction.Text.{sanitize_text}
use codex_trading_app.Redaction.Sanitize.{sanitize_fields}
use codex_trading_app.Trades.Intent.{set_field, sanitize_text_field}

pub record Execution (F : Type 0) : Type 0 where
  pub id : Option ℕ
  pub trade_intent_id : Option ℕ
  pub strategy_name : String
  pub instrument : String
  pub phase : String
  pub status : String
  pub client_request_id : Option String
  pub broker_reference : Option String
  pub local_position_id : Option ℕ
  pub local_trade_id : Option ℕ
  pub signal_time : ℕ
  pub submitted_at : Option ℕ
  pub acknowledged_at : Option ℕ
  pub completed_at : Option ℕ
  pub last_transition_at : ℕ
  pub requested_size : Option F
  pub filled_size : Option F
  pub requested_price : Option F
  pub average_fill_price : Option F
  pub intended_risk_amount : Option F
  pub submitted_risk_amount : Option F
  pub fill_derived_risk_amount : Option F
  pub risk_truth_confidence : Option String
  pub reason : Option String
  pub error_code : Option String
  pub error_message : Option String
  pub requires_manual_review : Bool
  pub details : Fields F
  pub created_at : ℕ
  pub updated_at : ℕ

-- The arguments of `transition_execution` that may be given; no details are an empty mapping.
pub record ExecutionUpdate (F : Type 0) : Type 0 where
  pub trade_intent_id : Option ℕ
  pub client_request_id : Option String
  pub broker_reference : Option String
  pub local_position_id : Option ℕ
  pub local_trade_id : Option ℕ
  pub submitted_at : Option ℕ
  pub acknowledged_at : Option ℕ
  pub completed_at : Option ℕ
  pub filled_size : Option F
  pub average_fill_price : Option F
  pub intended_risk_amount : Option F
  pub submitted_risk_amount : Option F
  pub fill_derived_risk_amount : Option F
  pub risk_truth_confidence : Option String
  pub reason : Option String
  pub error_code : Option String
  pub error_message : Option String
  pub requires_manual_review : Option Bool
  pub details : Fields F

-- `a if a is not None else b`
abbrev pub given_or : {A : Type 0} → Option A → A → A
given_or none a = a
given_or (some a) b = a

-- `completed_at or acknowledged_at or submitted_at or utc_now()`
unfoldable pub transition_instant : {F : Type 0} → ExecutionUpdate F → ℕ → ℕ
transition_instant u now =
    given_or (set_field u.completed_at (set_field u.acknowledged_at u.submitted_at)) now

module _ {F : Type 0} where
  -- `entries[key] = value`, on a dict, which keeps the order of insertion.
  unfoldable pub put : String → Payload F → Fields F → Fields F
  put key value end = field key value end
  put key value (field k v entries) =
      let rest = put key value entries in
      if str_eq k key then field k value entries else field k v rest

  -- `{**entries, **others}`
  unfoldable pub merged : Fields F → Fields F → Fields F
  unfolding put
  merged entries end = entries
  merged entries (field k v others) = merged (put k v entries) others

  module _ (lower substitute : String → String) (shown : Payload F → String) where
    -- `_sanitize_details_update`
    unfoldable pub sanitize_details_update : Fields F → Fields F → Fields F
    unfolding merged sanitize_fields
    sanitize_details_update existing incoming =
        merged (sanitize_fields lower substitute shown existing)
          (sanitize_fields lower substitute shown incoming)

    -- `_sanitize_execution`
    unfoldable pub sanitize_execution : Execution F → Execution F
    unfolding sanitize_fields sanitize_text
    sanitize_execution e = record e {
      reason = sanitize_text_field (sanitize_text substitute) e.reason;
      error_message = sanitize_text_field (sanitize_text substitute) e.error_message;
      details = sanitize_fields lower substitute shown e.details;
    }

    -- `if details: ... else: ...`
    unfoldable pub updated_details : Fields F → Fields F → Fields F
    unfolding sanitize_details_update sanitize_fields
    updated_details existing end = sanitize_fields lower substitute shown existing
    updated_details existing incoming = sanitize_details_update existing incoming

    -- What `transition_execution` writes; `now` and `later` are its two readings of the clock.
    unfoldable pub transitioned_execution :
        ExecutionStatus → ExecutionUpdate F → ℕ → ℕ → Execution F → Execution F
    unfolding value transition_instant sanitize_text updated_details
    transitioned_execution next u now later e = record {
      id = e.id;
      trade_intent_id = set_field u.trade_intent_id e.trade_intent_id;
      strategy_name = e.strategy_name;
      instrument = e.instrument;
      phase = e.phase;
      status = value next;
      client_request_id = set_field u.client_request_id e.client_request_id;
      broker_reference = set_field u.broker_reference e.broker_reference;
      local_position_id = set_field u.local_position_id e.local_position_id;
      local_trade_id = set_field u.local_trade_id e.local_trade_id;
      signal_time = e.signal_time;
      submitted_at = set_field u.submitted_at e.submitted_at;
      acknowledged_at = set_field u.acknowledged_at e.acknowledged_at;
      completed_at = set_field u.completed_at e.completed_at;
      last_transition_at = transition_instant u now;
      requested_size = e.requested_size;
      filled_size = set_field u.filled_size e.filled_size;
      requested_price = e.requested_price;
      average_fill_price = set_field u.average_fill_price e.average_fill_price;
      intended_risk_amount = set_field u.intended_risk_amount e.intended_risk_amount;
      submitted_risk_amount = set_field u.submitted_risk_amount e.submitted_risk_amount;
      fill_derived_risk_amount = set_field u.fill_derived_risk_amount e.fill_derived_risk_amount;
      risk_truth_confidence = set_field u.risk_truth_confidence e.risk_truth_confidence;
      reason =
          sanitize_text_field (sanitize_text substitute)
            (set_field (sanitize_text_field (sanitize_text substitute) u.reason) e.reason);
      error_code = set_field u.error_code e.error_code;
      error_message = sanitize_text_field (sanitize_text substitute) (
          set_field (sanitize_text_field (sanitize_text substitute) u.error_message)
            e.error_message);
      requires_manual_review = given_or u.requires_manual_review e.requires_manual_review;
      details = updated_details e.details u.details;
      created_at = e.created_at;
      updated_at = later;
    }
