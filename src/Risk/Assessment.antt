-- ===== src/Risk/Assessment.antt =====
-- `assess_entry` of backend/app/services/portfolio_risk_service.py: the five layers, the audit of
-- them in order, and the verdict.
use codex_trading_app.Prelude.{
  ℕ, String, Bool, true, false, Option, none, some, List, [], ◌∷◌, ◌++◌, if◌then◌else◌,
}
use codex_trading_app.Allocation.Floats.{Floats}
use codex_trading_app.Allocation.Signals.{EntrySignal}
use codex_trading_app.Risk.Records.{
  HeldPosition, ClosedTrade, EntryIntent, RuntimeState, RuntimeView, RiskSettings, LayerResult,
  SignalStatus, approved, rejected,
}
use codex_trading_app.Risk.PreTrade.{load_recent_entry_trade_intents, evaluate_pre_trade}
use codex_trading_app.Risk.Limits.{
  evaluate_portfolio, evaluate_market_quality, evaluate_platform_health, evaluate_kill_switch,
}

-- What the loop over the layers keeps.
pub record Audit : Type 0 where
  pub rejection_layer : Option String
  pub rejection_reason : Option String
  pub audited_layers : List LayerResult
  pub blocked : Bool

abbrev pub fresh_audit : Audit
fresh_audit = record {
  rejection_layer = none;
  rejection_reason = none;
  audited_layers = [];
  blocked = false;
}

-- The entry for a layer behind a rejection.
abbrev pub skipped : LayerResult → LayerResult
skipped l = record {
  layer = l.layer;
  status = "SKIPPED";
  passed = none;
  reason = "Skipped after earlier rejection.";
  checks = [];
}

-- `layer["passed"] is False`
abbrev pub has_failed : Option Bool → Bool
has_failed (some false) = true
has_failed _ = false

-- The body of the loop.
unfoldable pub audit_layer : LayerResult → Audit → Audit
audit_layer l a =
    if a.blocked
    then record a { audited_layers = a.audited_layers ++ skipped l ∷ [] }
    else if has_failed l.passed
    then record {
      rejection_layer = some l.layer;
      rejection_reason = some l.reason;
      audited_layers = a.audited_layers ++ l ∷ [];
      blocked = true;
    }
    else record a { audited_layers = a.audited_layers ++ l ∷ [] }

unfoldable pub audit_layers : List LayerResult → Audit → Audit
unfolding audit_layer
audit_layers [] a = a
audit_layers (l ∷ ls) a = audit_layers ls (audit_layer l a)

-- The fields that `replace` sets on the signal, without the summary for display.
pub record Assessment : Type 0 where
  pub status : SignalStatus
  pub reason : String
  pub rejection_layer : Option String
  pub audit_trail : List LayerResult

-- `approved = rejection_reason is None`
unfoldable pub verdict : Audit → Assessment
verdict a = elim a.rejection_reason [
  | none ↦ record {
    status = approved;
    reason = "Approved by layered risk controls.";
    rejection_layer = none;
    audit_trail = a.audited_layers;
  }
  | some why ↦ record {
    status = rejected;
    reason = why;
    rejection_layer = a.rejection_layer;
    audit_trail = a.audited_layers;
  }
]

-- What the service reads through its session.
pub record Session : Type 0 where
  pub trade_intents : List EntryIntent
  pub active_runtimes : List RuntimeState

abbrev pub intents_of : Option Session → Option (List EntryIntent)
intents_of none = none
intents_of (some session) = some session.trade_intents

-- `list_active_runtimes() if self.runtime_state_service is not None else []`
abbrev pub runtimes_of : Option Session → List RuntimeState
runtimes_of none = []
runtimes_of (some session) = session.active_runtimes

-- What an assessment finds: positions and trades, the session, the runtime manager, and the clock at
-- the two times that the day's profit is asked for.
pub record Situation (F : Type 0) : Type 0 where
  pub open_positions : List (HeldPosition F)
  pub trades : List (ClosedTrade F)
  pub session : Option Session
  pub manager : RuntimeView
  pub portfolio_now : ℕ
  pub kill_switch_now : ℕ

-- `upper` is `str.upper`.
module _ (fl : Floats) (settings : RiskSettings fl.F) (upper : String → String) where
  open fl use {F}

  unfoldable pub layers : EntrySignal F → Situation F → List LayerResult
  layers s w =
      let runtimes = runtimes_of w.session in
      let recent = load_recent_entry_trade_intents fl settings s (intents_of w.session) in
      evaluate_pre_trade fl settings s w.open_positions w.trades recent
      ∷ evaluate_portfolio fl settings w.portfolio_now s w.open_positions w.trades
      ∷ evaluate_market_quality fl settings upper w.manager s
      ∷ evaluate_platform_health fl settings w.manager s runtimes
      ∷ evaluate_kill_switch fl settings w.kill_switch_now w.manager w.trades runtimes
      ∷ []

  -- `assess_entry`
  unfoldable pub assess_entry : EntrySignal F → Situation F → Assessment
  assess_entry s w = verdict (audit_layers (layers s w) fresh_audit)
