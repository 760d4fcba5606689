-- ===== src/Alerts/Candidates.antt =====
-- `_candidate_from_read_model` and `_json_safe` of
-- backend/app/services/allocation_alert_service.py.
use Prim.Native.String
use codex_trading_app.Prelude.{ℕ, String, str_eq, Option, none, some, List, if◌then◌else◌}
use codex_trading_app.Redaction.Payload.{
  Payload, null, flag, number, text, mapping, sequence, other, Fields, end, field, Items, nil, cons,
}
use codex_trading_app.Trades.Executions.Events.{find_field}
use codex_trading_app.Alerts.Record.{AlertCandidate}

-- An item of the read model, with its lists and details present.
pub record ReadAlert (F : Type 0) : Type 0 where
  pub alert_type : String
  pub severity : String
  pub title : String
  pub message : String
  pub count : ℕ
  pub intent_ids : List ℕ
  pub cycle_ids : List String
  pub execution_ids : List ℕ
  pub first_seen_at : Option ℕ
  pub last_seen_at : Option ℕ
  pub details : Fields F

-- `key_material`
pub record KeyMaterial (F : Type 0) : Type 0 where
  pub alert_type : String
  pub cycle_ids : List String
  pub intent_ids : List ℕ
  pub execution_ids : List ℕ
  pub detail_name : Option (Payload F)
  pub bucket_type : Option (Payload F)

-- The level that a severity stands for.
unfoldable pub escalation_level_of : String → String
escalation_level_of severity =
    if str_eq severity "error"
    then "critical"
    else if str_eq severity "warning"
    then "warning"
    else "none"

-- `isoformat` is that of a value that is a datetime, and `none` for another.
module _ {F : Type 0} (isoformat : String → Option String) where
  safe_other : String → Option String → Payload F
  safe_other value none = other value
  safe_other value (some written) = text written

  -- `_json_safe`
  unfoldable mutual
    unfolding safe_other

    pub json_safe : Payload F → Payload F
    json_safe null = null
    json_safe (flag value) = flag value
    json_safe (number value) = number value
    json_safe (text value) = text value
    json_safe (mapping fields) = mapping (json_safe_fields fields)
    json_safe (sequence items) = sequence (json_safe_items items)
    json_safe (other value) = safe_other value (isoformat value)

    pub json_safe_fields : Fields F → Fields F
    json_safe_fields end = end
    json_safe_fields (field key item fields) = field key (json_safe item) (json_safe_fields fields)

    pub json_safe_items : Items F → Items F
    json_safe_items nil = nil
    json_safe_items (cons item items) = cons (json_safe item) (json_safe_items items)

  -- `digest` is the first 16 digits of the SHA-256 of the material's text.
  unfoldable pub candidate_from_read_model :
      (KeyMaterial F → String) → ReadAlert F → AlertCandidate F
  unfolding escalation_level_of json_safe find_field
  candidate_from_read_model digest item = record {
    alert_key = String.◌++◌ item.alert_type (
        String.◌++◌ ":" (
          digest (record {
            alert_type = item.alert_type;
            cycle_ids = item.cycle_ids;
            intent_ids = item.intent_ids;
            execution_ids = item.execution_ids;
            detail_name = find_field "name" item.details;
            bucket_type = find_field "bucket_type" item.details;
          })));
    alert_type = item.alert_type;
    severity = item.severity;
    escalation_level = escalation_level_of item.severity;
    title = item.title;
    message = item.message;
    count = item.count;
    intent_ids = item.intent_ids;
    cycle_ids = item.cycle_ids;
    execution_ids = item.execution_ids;
    first_seen_at = item.first_seen_at;
    last_seen_at = item.last_seen_at;
    details = json_safe_fields item.details;
  }
