-- ===== src/Alerts/Service.antt =====
-- `AllocationAlertService` of backend/app/services/allocation_alert_service.py.
use codex_trading_app.Prelude.{
  ℕ, ◌+◌, String, str_eq, Bool, true, Option, none, some, List, [], ◌∷◌, any, Attempt, ok, ◌>>=◌,
  if◌then◌else◌,
}
use codex_trading_app.Redaction.Payload.{Payload}
use codex_trading_app.Alerts.Record.{AllocationAlert, AlertCandidate, is_active, is_escalated}
use codex_trading_app.Alerts.Table.{
  AlertTable, AlertError, has_key, find_alert, list_allocation_alerts, get_allocation_alert,
  insert_alert, update_alert,
}

-- The readings of the clock in a refresh, by the key of the alert: the one for a candidate, that of
-- the default of `created_at` in a new row, and the two for a row that is resolved.
pub record Readings : Type 0 where
  pub evaluated : String → ℕ
  pub row_created : String → ℕ
  pub resolved : String → ℕ
  pub updated : String → ℕ

-- `a or now`
abbrev pub instant_or_now : Option ℕ → ℕ → ℕ
instant_or_now none now = now
instant_or_now (some a) now = a

module _ {F : Type 0} where
  -- A new alert for a candidate; it gets its id from the table.
  unfoldable pub new_alert : AlertCandidate F → ℕ → ℕ → AllocationAlert F
  new_alert c now created = record {
    id = 0;
    alert_key = c.alert_key;
    alert_type = c.alert_type;
    severity = c.severity;
    state = "OPEN";
    escalation_level = c.escalation_level;
    title = c.title;
    message = some c.message;
    count = c.count;
    recurrence_count = 1;
    first_seen_at = instant_or_now c.first_seen_at now;
    last_seen_at = instant_or_now c.last_seen_at now;
    last_evaluated_at = now;
    acknowledged_at = none;
    acknowledged_by = none;
    resolved_at = none;
    resolved_by = none;
    escalated_at = if is_escalated c.escalation_level then some now else none;
    related_intent_ids = c.intent_ids;
    related_cycle_ids = c.cycle_ids;
    related_execution_ids = c.execution_ids;
    details = c.details;
    created_at = created;
    updated_at = now;
  }

  -- `if alert.state == "RESOLVED": ...`
  unfoldable pub reopened : AllocationAlert F → AllocationAlert F
  reopened a =
      if str_eq a.state "RESOLVED"
      then record a {
        state = "OPEN";
        recurrence_count = a.recurrence_count + 1;
        resolved_at = none;
        resolved_by = none;
        acknowledged_at = none;
        acknowledged_by = none;
      }
      else a

  -- What a candidate writes to the alert of its key.
  unfoldable pub reevaluated : AlertCandidate F → ℕ → AllocationAlert F → AllocationAlert F
  unfolding reopened
  reevaluated c now alert =
      let a = reopened alert in
      record a {
        severity = c.severity;
        escalation_level = c.escalation_level;
        title = c.title;
        message = some c.message;
        count = c.count;
        last_seen_at = instant_or_now c.last_seen_at now;
        last_evaluated_at = now;
        related_intent_ids = c.intent_ids;
        related_cycle_ids = c.cycle_ids;
        related_execution_ids = c.execution_ids;
        details = c.details;
        escalated_at =
            if is_escalated c.escalation_level
            then some (instant_or_now a.escalated_at now)
            else a.escalated_at;
        updated_at = now;
      }

  -- `alert_key in active_keys`
  abbrev pub is_candidate : String → List (AlertCandidate F) → Bool
  is_candidate key candidates = any (λ c. str_eq c.alert_key key) candidates

  unfoldable pub resolved_alert : ℕ → ℕ → AllocationAlert F → AllocationAlert F
  resolved_alert resolved_at updated_at a = record a {
    state = "RESOLVED";
    resolved_at = some resolved_at;
    updated_at = updated_at;
  }

  -- `existing_by_key.get(key)`: the listed alert of that key, as its row is now.
  unfoldable pub existing :
      List (AllocationAlert F) → String → AlertTable F → Option (AllocationAlert F)
  existing listed key table = if any (has_key key) listed then find_alert key table.rows else none

  module _ (lower substitute : String → String) (shown : Payload F → String) where
    -- `acknowledge_alert` and `resolve_alert`, on the alert that is found; `now` and `later` are the
    -- two readings of the clock.
    unfoldable pub acknowledge_found :
        String → ℕ → ℕ → Option (AllocationAlert F) → AlertTable F → AlertTable F
    unfolding update_alert
    acknowledge_found actor_id now later none table = table
    acknowledge_found actor_id now later (some a) table =
        update_alert lower substitute shown
          (record a {
            state = "ACKNOWLEDGED";
            acknowledged_at = some now;
            acknowledged_by = some actor_id;
            updated_at = later;
          })
          table

    unfoldable pub acknowledge_alert : ℕ → String → ℕ → ℕ → AlertTable F → AlertTable F
    unfolding acknowledge_found get_allocation_alert
    acknowledge_alert alert_id actor_id now later table =
        acknowledge_found actor_id now later (get_allocation_alert alert_id table) table

    unfoldable pub resolve_found :
        String → ℕ → ℕ → Option (AllocationAlert F) → AlertTable F → AlertTable F
    unfolding update_alert
    resolve_found actor_id now later none table = table
    resolve_found actor_id now later (some a) table =
        update_alert lower substitute shown
          (record a {
            state = "RESOLVED";
            resolved_at = some now;
            resolved_by = some actor_id;
            updated_at = later;
          })
          table

    unfoldable pub resolve_alert : ℕ → String → ℕ → ℕ → AlertTable F → AlertTable F
    unfolding resolve_found get_allocation_alert
    resolve_alert alert_id actor_id now later table =
        resolve_found actor_id now later (get_allocation_alert alert_id table) table

  module _ (lower substitute : String → String) (shown : Payload F → String)
      (clock : Readings) where
    -- One candidate, with the alert of its key if the listing found it.
    unfoldable pub evaluate :
        AlertCandidate F
        → Option (AllocationAlert F)
        → AlertTable F
        → Attempt AlertError (AlertTable F)
    unfolding new_alert reevaluated insert_alert update_alert
    evaluate c none table =
        insert_alert lower substitute shown
          (new_alert c (clock.evaluated c.alert_key) (clock.row_created c.alert_key)) table
    evaluate c (some alert) table = ok (
        update_alert lower substitute shown (reevaluated c (clock.evaluated c.alert_key) alert)
          table)

    unfoldable pub evaluate_all :
        List (AllocationAlert F)
        → List (AlertCandidate F)
        → AlertTable F
        → Attempt AlertError (AlertTable F)
    unfolding evaluate existing
    evaluate_all listed [] table = ok table
    evaluate_all listed (c ∷ cs) table = do
      next ← evaluate c (existing listed c.alert_key table) table
      evaluate_all listed cs next

    -- The second loop, on one listed alert and on all.
    unfoldable pub resolve_stale :
        List (AlertCandidate F) → AllocationAlert F → AlertTable F → AlertTable F
    unfolding resolved_alert update_alert
    resolve_stale candidates a table =
        if is_candidate a.alert_key candidates
        then table
        else update_alert lower substitute shown
            (resolved_alert (clock.resolved a.alert_key) (clock.updated a.alert_key) a) table

    unfoldable pub resolve_all :
        List (AlertCandidate F) → List (AllocationAlert F) → AlertTable F → AlertTable F
    unfolding resolve_stale
    resolve_all candidates [] table = table
    resolve_all candidates (a ∷ rest) table =
        resolve_all candidates rest (resolve_stale candidates a table)

    unfoldable pub resolve_listed : List (AlertCandidate F) → AlertTable F → AlertTable F
    unfolding resolve_all list_allocation_alerts
    resolve_listed candidates table =
        resolve_all candidates (list_allocation_alerts 500 is_active table) table

    -- `refresh_alerts`, on the candidates of the read model: what it leaves in the table.
    unfoldable pub refresh_alerts :
        List (AlertCandidate F) → AlertTable F → Attempt AlertError (AlertTable F)
    unfolding evaluate_all resolve_listed list_allocation_alerts
    refresh_alerts candidates table = do
      evaluated ← evaluate_all (list_allocation_alerts 500 (λ s. true) table) candidates table
      ok (resolve_listed candidates evaluated)

    -- `list_alerts`: the alerts and what a refresh, if one is asked for, leaves.
    unfoldable pub list_alerts :
        ℕ
        → Bool
        → Bool
        → List (AlertCandidate F)
        → AlertTable F
        → Attempt AlertError (List (AllocationAlert F) × AlertTable F)
    unfolding list_allocation_alerts refresh_alerts
    list_alerts limit include_resolved refresh candidates table = do
      current ← if refresh then refresh_alerts candidates table else ok table
      ok (
        list_allocation_alerts limit (if include_resolved then (λ s. true) else is_active) current,
        current,
      )
