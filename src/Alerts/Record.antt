-- ===== src/Alerts/Record.antt =====
-- A row of `AllocationAlert` (backend/app/models/allocation_alert.py) and a candidate for one. `F` is
-- the type of numbers in details.
use codex_trading_app.Prelude.{ℕ, String, str_eq, Bool, ◌||◌, Option, List}
use codex_trading_app.Redaction.Payload.{Fields}

pub record AllocationAlert (F : Type 0) : Type 0 where
  pub id : ℕ
  pub alert_key : String
  pub alert_type : String
  pub severity : String
  pub state : String
  pub escalation_level : String
  pub title : String
  pub message : Option String
  pub count : ℕ
  pub recurrence_count : ℕ
  pub first_seen_at : ℕ
  pub last_seen_at : ℕ
  pub last_evaluated_at : ℕ
  pub acknowledged_at : Option ℕ
  pub acknowledged_by : Option String
  pub resolved_at : Option ℕ
  pub resolved_by : Option String
  pub escalated_at : Option ℕ
  pub related_intent_ids : List ℕ
  pub related_cycle_ids : List String
  pub related_execution_ids : List ℕ
  pub details : Fields F
  pub created_at : ℕ
  pub updated_at : ℕ

-- `AlertCandidate`
pub record AlertCandidate (F : Type 0) : Type 0 where
  pub alert_key : String
  pub alert_type : String
  pub severity : String
  pub escalation_level : String
  pub title : String
  pub message : String
  pub count : ℕ
  pub intent_ids : List ℕ
  pub cycle_ids : List String
  pub execution_ids : List ℕ
  pub first_seen_at : Option ℕ
  pub last_seen_at : Option ℕ
  pub details : Fields F

-- The states "OPEN" and "ACKNOWLEDGED".
abbrev pub is_active : String → Bool
is_active state = str_eq state "OPEN" || str_eq state "ACKNOWLEDGED"

-- `escalation_level in {"warning", "critical"}`
abbrev pub is_escalated : String → Bool
is_escalated level = str_eq level "warning" || str_eq level "critical"
