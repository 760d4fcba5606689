-- ===== src/Alerts/Examples.antt =====
-- A refresh of alerts, for backend/app/services/allocation_alert_service.py.
use codex_trading_app.Prelude.{
  ℕ, ◌≤◌, String, str_eq, eq_iff, ◌≡◌, refl, false, Option, none, some, List, [], ◌∷◌, count, map,
  arith, Attempt, ok,
}
use codex_trading_app.Prelude.Rows.{find_first}
use codex_trading_app.Redaction.Payload.{Payload, end, field, text}
use codex_trading_app.Alerts.Record.{AllocationAlert, AlertCandidate}
use codex_trading_app.Alerts.Candidates.{candidate_from_read_model}
use codex_trading_app.Alerts.Table.{AlertTable, AlertError}
use codex_trading_app.Alerts.Service.{
  Readings, is_candidate, refresh_alerts, acknowledge_alert, resolve_alert,
}
use codex_trading_app.Alerts.Refresh.{active_at, strange_at}
use codex_trading_app.Alerts.Sync.{refresh_in_sync}

abbrev unchanged : String → String
unchanged s = s

abbrev shown : Payload ℕ → String
shown value = "?"

abbrev clock : Readings
clock = record { evaluated = λ k. 50; row_created = λ k. 50; resolved = λ k. 60; updated = λ k. 61 }

abbrev candidate : String → AlertCandidate ℕ
candidate key = record {
  alert_key = key;
  alert_type = "budget";
  severity = "warning";
  escalation_level = "warning";
  title = "Budget binds";
  message = "Often.";
  count = 3;
  intent_ids = [];
  cycle_ids = [];
  execution_ids = [];
  first_seen_at = none;
  last_seen_at = some 40;
  details = end;
}

abbrev alert : ℕ → String → String → AllocationAlert ℕ
alert id key state = record {
  id = id;
  alert_key = key;
  alert_type = "budget";
  severity = "info";
  state = state;
  escalation_level = "none";
  title = "Budget binds";
  message = none;
  count = 1;
  recurrence_count = 1;
  first_seen_at = 1;
  last_seen_at = 1;
  last_evaluated_at = 1;
  acknowledged_at = none;
  acknowledged_by = none;
  resolved_at = none;
  resolved_by = none;
  escalated_at = none;
  related_intent_ids = [];
  related_cycle_ids = [];
  related_execution_ids = [];
  details = end;
  created_at = 1;
  updated_at = id;
}

-- "gone" has no candidate any more, "back" had been resolved, "new" is not stored yet.
abbrev stored_alerts : AlertTable ℕ
stored_alerts = record {
  rows = alert 1 "gone" "ACKNOWLEDGED" ∷ alert 2 "back" "RESOLVED" ∷ [];
  next_id = 3;
}

abbrev candidates : List (AlertCandidate ℕ)
candidates = candidate "back" ∷ candidate "new" ∷ []

abbrev states_of : Attempt AlertError (AlertTable ℕ) → List (String × String × ℕ)
states_of (ok table) = map (λ a. (a.alert_key, a.state, a.recurrence_count)) table.rows
states_of _ = []

a_refresh :
    states_of (refresh_alerts unchanged unchanged shown clock candidates stored_alerts)
    ≡ ("gone", "RESOLVED", 1) ∷ ("back", "OPEN", 2) ∷ ("new", "OPEN", 1) ∷ []
unfolding refresh_alerts find_first
a_refresh = refl

-- An alert that is resolved and then acknowledged is active again.
acknowledged_after_resolution :
    map {B = String × Option ℕ}
      (λ a. (a.state, a.resolved_at))
      (acknowledge_alert unchanged unchanged shown 1 "operator" 8 9
        (resolve_alert unchanged unchanged shown 1 "operator" 6 7 stored_alerts)).rows
    ≡ ("ACKNOWLEDGED", some 6) ∷ ("RESOLVED", none) ∷ []
unfolding acknowledge_alert resolve_alert find_first
acknowledged_after_resolution = refl

a_candidate :
    (candidate_from_read_model {F = ℕ}
      (λ s. none)
      (λ material. "0123")
      (record {
        alert_type = "budget";
        severity = "error";
        title = "Budget binds";
        message = "Often.";
        count = 3;
        intent_ids = [];
        cycle_ids = [];
        execution_ids = [];
        first_seen_at = none;
        last_seen_at = none;
        details = field "name" (text "daily") end;
      })).alert_key
    ≡ "budget:0123"
unfolding candidate_from_read_model
a_candidate = refl

distinct_candidates : (k : String) → count (λ c. str_eq c.alert_key k) candidates ≤ 1
distinct_candidates k = ground (arith, eq_iff "back" k, eq_iff "new" k, eq_iff "back" "new")

known_states : (k : String) → strange_at k stored_alerts ≡ false
unfolding find_first
known_states k = ground arith

refresh_in_sync_example :
    (after : AlertTable ℕ) × (refresh_alerts unchanged unchanged shown clock candidates
        stored_alerts
      ≡ ok after)
    × ((k : String) → active_at k after ≡ is_candidate k candidates)
refresh_in_sync_example =
    refresh_in_sync unchanged unchanged shown clock candidates stored_alerts (omega arith)
      distinct_candidates known_states
