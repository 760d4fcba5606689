-- ===== src/Lifecycle/Intents/Table.antt =====
-- What the transition table of trade intents says, against the sets of states that
-- backend/app/services/lifecycle_rules.py and backend/app/models/trade.py name.
use codex_trading_app.Prelude.{◌≡◌, refl, ◌≢◌, ◌↔◌, Bool, true, false, not, arith, ok, eq_iff}
use codex_trading_app.Lifecycle.IntentState.{
  TradeIntentState, proposed, approved, submitted, acknowledged, partially_filled, filled, rejected,
  position_opened, close_requested, closed, failed, cancelled, external_position_adopted,
  recovered_position_attached, forced_reconciliation_close, is_in,
  active_instrument_ownership_states,
}
use codex_trading_app.Lifecycle.Intents.{
  terminal_states, provenance_states, check_transition, refusal_reason,
}

-- The validation lets an intent go from `s` to `t`.
abbrev pub Allowed : TradeIntentState → TradeIntentState → Type 0
Allowed s t = check_transition s t ≡ ok t

-- Every state that no allowed transition leaves is stuck.
abbrev pub IsStuck : TradeIntentState → Type 0
IsStuck s = (t : TradeIntentState) → Allowed s t → s ≡ t

pub terminal-IsStuck : (s : TradeIntentState) → is_in s terminal_states ≡ true → IsStuck s
unfolding check_transition is_in
terminal-IsStuck s h t a = ground arith

-- Where an intent that is not terminal can go.
way_out : TradeIntentState → TradeIntentState
way_out proposed = approved
way_out approved = submitted
way_out submitted = acknowledged
way_out acknowledged = filled
way_out filled = closed
way_out close_requested = submitted
way_out _ = close_requested

way_out_lem :
    (s : TradeIntentState)
    → is_in s terminal_states ≡ false
    → Allowed s (way_out s) × (s ≢ way_out s)
unfolding check_transition is_in way_out
way_out_lem proposed h = (refl, λ e. cc)
way_out_lem approved h = (refl, λ e. cc)
way_out_lem submitted h = (refl, λ e. cc)
way_out_lem acknowledged h = (refl, λ e. cc)
way_out_lem partially_filled h = (refl, λ e. cc)
way_out_lem filled h = (refl, λ e. cc)
way_out_lem position_opened h = (refl, λ e. cc)
way_out_lem close_requested h = (refl, λ e. cc)
way_out_lem external_position_adopted h = (refl, λ e. cc)
way_out_lem recovered_position_attached h = (refl, λ e. cc)
way_out_lem rejected h = cc
way_out_lem closed h = cc
way_out_lem failed h = cc
way_out_lem cancelled h = cc
way_out_lem forced_reconciliation_close h = cc

stuck-terminal :
    (s : TradeIntentState) (b : Bool) → is_in s terminal_states ≡ b → IsStuck s → b ≡ true
stuck-terminal s true e stuck = refl
stuck-terminal s false e stuck =
    let (allowed, moved) = way_out_lem s e in absurd (moved (stuck (way_out s) allowed))

-- A state is in TRADE_INTENT_TERMINAL_STATES exactly when the only state that the validation lets
-- an intent go to from it is that state itself.
pub terminal_iff_IsStuck : (s : TradeIntentState) → (is_in s terminal_states ≡ true) ↔ IsStuck s
terminal_iff_IsStuck s = (terminal-IsStuck s, stuck-terminal s (is_in s terminal_states) refl)

-- An intent owns its instrument (its state is in ACTIVE_INSTRUMENT_OWNERSHIP_STATES) exactly when
-- its state is not in TRADE_INTENT_TERMINAL_STATES, and an allowed transition never leads from a
-- state without ownership into one with it.
pub ownership_never_regained :
    (s t : TradeIntentState)
    → (is_in s active_instrument_ownership_states ≡ not (is_in s terminal_states))
      × (Allowed s t
          → is_in t active_instrument_ownership_states ≡ true
          → is_in s active_instrument_ownership_states ≡ true)
unfolding check_transition is_in
ownership_never_regained s t = (ground arith, λ a h. ground arith)

-- The two provenance states, of adopted and of recovered positions, are entered by no allowed
-- transition from another state.
pub provenance_is_origin :
    (s t : TradeIntentState) → is_in t provenance_states ≡ true → Allowed s t → s ≡ t
unfolding check_transition is_in
provenance_is_origin s t h a = ground arith

pub terminal_reason :
    (s : TradeIntentState) (b : Bool)
    → is_in s terminal_states ≡ b
    → (refusal_reason s ≡ "terminal trade intents cannot reactivate") ↔ (b ≡ true)
unfolding refusal_reason
terminal_reason s true e = (λ h. refl, λ h. rw e)
terminal_reason s false e = (
  λ h. absurd (
      grind (
        arith,
        e,
        h,
        eq_iff "transition is not classified as valid" "terminal trade intents cannot reactivate",
      )),
  λ h. cc,
)
