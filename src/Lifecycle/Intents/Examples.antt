-- ===== src/Lifecycle/Intents/Examples.antt =====
-- Runs of the lifecycle rules (backend/app/services/lifecycle_rules.py), and the theorems about
-- trade intents at concrete inputs.
use codex_trading_app.Prelude.{◌≡◌, refl, ◌≢◌, ◌↔◌, true, false, not, List, [], ◌∷◌, ok, raised}
use codex_trading_app.Lifecycle.IntentState.{
  TradeIntentState, proposed, rejected, approved, submitted, acknowledged, filled, closed,
  position_opened, value, is_in, active_instrument_ownership_states,
}
use codex_trading_app.Lifecycle.Errors.{LifecycleTransitionError, refused, unknown_value}
use codex_trading_app.Lifecycle.Intents.{
  terminal_states, text, parse_trade_intent_state, check_transition,
  validate_trade_intent_transition, refusal,
}
use codex_trading_app.Lifecycle.Intents.Table.{
  Allowed, IsStuck, terminal_iff_IsStuck, ownership_never_regained,
}
use codex_trading_app.Lifecycle.Intents.Paths.{
  IsCourse, end, unapproved, unsubmitted, without_fill, without_full_fill, course_gates,
  terminal_reachable,
}
use codex_trading_app.Lifecycle.Refusals.{terminal_reactivation_refused}
use codex_trading_app.Lifecycle.Parsing.{parse_iff_value, validate_iff_Allowed}

reactivation_refused :
    validate_trade_intent_transition (text "CLOSED") (text "APPROVED")
    ≡ raised (
        refused (record {
          entity_name = "TradeIntent";
          current_state = "CLOSED";
          target_state = "APPROVED";
          allowed_targets = "CLOSED" ∷ [];
          reason = "terminal trade intents cannot reactivate";
        }))
unfolding validate_trade_intent_transition value refusal
reactivation_refused = refl

unknown_refused :
    validate_trade_intent_transition (text "CLOSED") (text "OPEN") ≡ raised (unknown_value "OPEN")
unfolding validate_trade_intent_transition value
unknown_refused = refl

abbrev round_trip : List TradeIntentState
round_trip = approved ∷ submitted ∷ acknowledged ∷ filled ∷ position_opened ∷ position_opened ∷ []

round_trip-IsCourse : IsCourse proposed round_trip
unfolding check_transition is_in
round_trip-IsCourse = (refl, (refl, (refl, (refl, (refl, (refl, tt))))))

terminal_iff_IsStuck_example : (is_in closed terminal_states ≡ true) ↔ IsStuck closed
terminal_iff_IsStuck_example = terminal_iff_IsStuck closed

ownership_never_regained_example :
    (is_in proposed active_instrument_ownership_states ≡ not (is_in proposed terminal_states))
    × (Allowed proposed rejected
        → is_in rejected active_instrument_ownership_states ≡ true
        → is_in proposed active_instrument_ownership_states ≡ true)
ownership_never_regained_example = ownership_never_regained proposed rejected

terminal_reactivation_refused_example :
    ((e : LifecycleTransitionError) × (validate_trade_intent_transition
          (text "CLOSED")
          (text "APPROVED")
        ≡ raised (refused e))
      × (e.reason ≡ "terminal trade intents cannot reactivate")
      × (e.current_state ≡ "CLOSED")
      × (e.target_state ≡ "APPROVED"))
    ↔ ((s : TradeIntentState) × (t : TradeIntentState) × (value s ≡ "CLOSED")
        × (value t ≡ "APPROVED")
        × (is_in s terminal_states ≡ true)
        × (s ≢ t))
terminal_reactivation_refused_example = terminal_reactivation_refused "CLOSED" "APPROVED"

course_gates_example :
    (unapproved (end proposed round_trip) ≡ false → is_in approved round_trip ≡ true)
    × (unsubmitted (end proposed round_trip) ≡ false → is_in submitted round_trip ≡ true)
    × (without_fill (end proposed round_trip) ≡ false → is_in acknowledged round_trip ≡ true)
    × (without_full_fill (end proposed round_trip) ≡ false → is_in filled round_trip ≡ true)
course_gates_example = course_gates round_trip round_trip-IsCourse

terminal_reachable_example :
    (ts : List TradeIntentState) × IsCourse submitted ts
    × (is_in (end submitted ts) terminal_states ≡ true)
terminal_reachable_example = terminal_reachable submitted

parse_iff_value_example :
    (parse_trade_intent_state (text "FILLED") ≡ ok filled) ↔ (value filled ≡ "FILLED")
parse_iff_value_example = parse_iff_value "FILLED" filled

validate_iff_Allowed_example :
    (validate_trade_intent_transition (text "PROPOSED") (text "APPROVED") ≡ ok approved) ↔ (
      (s : TradeIntentState) × (value s ≡ "PROPOSED")
      × (value approved ≡ "APPROVED")
      × Allowed s approved)
validate_iff_Allowed_example = validate_iff_Allowed "PROPOSED" "APPROVED" approved
