-- ===== src/Risk/Records.antt =====
-- What the risk controls read (backend/app/models/trade.py, backend/app/models/runtime.py,
-- backend/app/core/runtime.py and backend/app/core/config.py) and what they report: the checks and
-- layers of backend/app/services/portfolio_risk_service.py.
use codex_trading_app.Prelude.{
  ℕ, String, Bool, true, false, Option, none, some, List, [], ◌∷◌, if◌then◌else◌,
}

-- The fields of `Position`.
pub record HeldPosition (F : Type 0) : Type 0 where
  pub strategy_name : String
  pub instrument : String
  pub risk_percent : Option F
  pub is_open : Bool

-- The fields of `Trade`.
pub record ClosedTrade (F : Type 0) : Type 0 where
  pub strategy_name : String
  pub instrument : String
  pub pnl : F
  pub close_time : ℕ

-- The fields of `TradeIntent`; `direction` and `state` are stored as texts.
pub record EntryIntent : Type 0 where
  pub strategy_name : String
  pub instrument : String
  pub direction : String
  pub state : String
  pub position_id : Option ℕ
  pub created_at : ℕ
  pub signal_time : ℕ

-- The fields of `StrategyRuntimeState`.
pub record RuntimeState : Type 0 where
  pub strategy_name : String
  pub instrument : String
  pub recovery_state : String

-- The runtime manager, as the controls ask it.
pub record RuntimeView : Type 0 where
  pub last_price_updated_at : String → Option ℕ
  pub price_error : String → Option String
  pub has_engine : String → String → Bool

-- The settings that the controls read. Durations are in microseconds, as the instants are; the
-- counts are validated not to be negative.
pub record RiskSettings (F : Type 0) : Type 0 where
  pub one_position_per_instrument : Bool
  pub max_positions_per_strategy : ℕ
  pub max_open_positions : ℕ
  pub max_open_risk_percent : F
  pub max_position_notional : F
  pub daily_loss_limit : F
  pub max_spread_percent_of_price : F
  pub price_stale_after_seconds : F
  pub entry_burst_limit : ℕ
  pub entry_burst_window : ℕ
  pub failed_entry_retry_cooldown : ℕ
  pub cooldown_after_loss : ℕ
  pub cooldown_after_exit : ℕ
  pub duplicate_signal_window : ℕ
  pub max_unhealthy_runtimes : ℕ
  pub global_entry_kill_switch : Bool

-- `SignalStatus`
pub data SignalStatus : Type 0 where
  pending approved rejected executed : SignalStatus

-- The dictionary of `_check`, without the `actual` value and the `limit` that it displays.
pub record Check : Type 0 where
  pub code : String
  pub passed : Bool
  pub reason : String

-- The dictionary of `_layer_result`; a skipped layer has neither passed nor failed.
pub record LayerResult : Type 0 where
  pub layer : String
  pub status : String
  pub passed : Option Bool
  pub reason : String
  pub checks : List Check

-- `_check`
unfoldable pub check : String → Bool → String → String → Check
check code passed success_reason failure_reason = record {
  code = code;
  passed = passed;
  reason = if passed then success_reason else failure_reason;
}

-- `next((check for check in checks if check["passed"] is False), None)`
unfoldable pub first_failed : List Check → Option Check
first_failed [] = none
first_failed (c ∷ cs) = let rest = first_failed cs in if c.passed then rest else some c

-- `_layer_result`
unfoldable pub layer_result : String → String → List Check → LayerResult
unfolding first_failed
layer_result layer all_passed checks = elim (first_failed checks) [
  | none ↦ record {
    layer = layer;
    status = "PASSED";
    passed = some true;
    reason = all_passed;
    checks = checks;
  }
  | some c ↦ record {
    layer = layer;
    status = "REJECTED";
    passed = some false;
    reason = c.reason;
    checks = checks;
  }
]
