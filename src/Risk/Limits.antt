-- ===== src/Risk/Limits.antt =====
-- The layers behind the first: `_evaluate_portfolio`, `_evaluate_market_quality`,
-- `_evaluate_platform_health` and `_evaluate_kill_switch` of
-- backend/app/services/portfolio_risk_service.py.
use Prim.Native.Nat.{◌/◌}
use codex_trading_app.Prelude.{
  ℕ, String, str_eq, Bool, true, false, not, ◌&&◌, ◌||◌, Option, none, some, List, [], ◌∷◌, length,
  any, count, ltb, leb, ◌==◌, if◌then◌else◌,
}
use codex_trading_app.Allocation.Floats.{Floats, max, or_float}
use codex_trading_app.Allocation.Signals.{EntrySignal}
use codex_trading_app.Risk.Records.{
  HeldPosition, ClosedTrade, RuntimeState, RuntimeView, RiskSettings, Check, LayerResult, check,
  layer_result,
}

-- The UTC date of an instant, as the number of the day.
abbrev pub date : ℕ → ℕ
date instant = instant / 86400000000

-- `recovery_state in {"RECOVERY_REQUIRED", "ERROR"}`, of a runtime with an engine.
unfoldable pub is_unhealthy : RuntimeView → RuntimeState → Bool
is_unhealthy manager r =
    (str_eq r.recovery_state "RECOVERY_REQUIRED" || str_eq r.recovery_state "ERROR")
    && manager.has_engine r.strategy_name r.instrument

-- `market_status.upper() not in {"CLOSED", "OFFLINE", "SUSPENDED"}`, of a status that is known.
unfoldable pub status_permits : (String → String) → Option String → Bool
status_permits upper none = true
status_permits upper (some status) =
    let known = upper status in
    not (str_eq known "CLOSED" || (str_eq known "OFFLINE" || str_eq known "SUSPENDED"))

abbrev is_no_error : Option String → Bool
is_no_error none = true
is_no_error (some e) = false

module _ (fl : Floats) (settings : RiskSettings fl.F) where
  open fl use {F, literal, add, sub, mul, neg, abs, lt, le, round, total_seconds}

  -- `sum(position.risk_percent or 0.0 for position in open_positions)`
  sum_from : F → List (HeldPosition F) → F
  unfolding or_float
  sum_from total [] = total
  sum_from total (p ∷ ps) = sum_from (add total (or_float fl p.risk_percent (literal "0.0"))) ps

  unfoldable pub projected_risk : EntrySignal F → List (HeldPosition F) → F
  unfolding sum_from
  projected_risk s positions = add (sum_from (literal "0") positions) s.risk_percent

  unfoldable pub projected_notional : EntrySignal F → F
  projected_notional s = round (abs (mul s.size s.observed_price)) 4

  -- `_daily_closed_pnl`, at an instant of the clock.
  unfoldable pub pnl_from : F → ℕ → List (ClosedTrade F) → F
  pnl_from total now [] = total
  pnl_from total now (t ∷ ts) =
      pnl_from (if date t.close_time == date now then add total t.pnl else total) now ts

  unfoldable pub daily_closed_pnl : ℕ → List (ClosedTrade F) → F
  unfolding pnl_from
  daily_closed_pnl now trades = pnl_from (literal "0") now trades

  -- `daily_pnl > -abs(limit)`
  unfoldable pub within_daily_loss : ℕ → List (ClosedTrade F) → Bool
  unfolding daily_closed_pnl
  within_daily_loss now trades =
      lt (neg (abs settings.daily_loss_limit)) (daily_closed_pnl now trades)

  unfoldable pub portfolio_checks :
      ℕ → EntrySignal F → List (HeldPosition F) → List (ClosedTrade F) → List Check
  unfolding projected_risk projected_notional within_daily_loss check
  portfolio_checks now s positions trades =
      check "portfolio_open_positions" (ltb (length positions) settings.max_open_positions)
        "Portfolio open-position count is within limits." "Portfolio max open positions reached."
      ∷ check "portfolio_open_risk" (le (projected_risk s positions) settings.max_open_risk_percent)
          "Projected open risk remains within the portfolio cap." "Portfolio open risk cap reached."
      ∷ check "position_notional" (le (projected_notional s) settings.max_position_notional)
          "Projected position notional is within limits."
          "Projected position notional exceeds the configured limit."
      ∷ check "daily_loss_limit" (within_daily_loss now trades)
          "Daily realized PnL is within limits." "Daily loss cap reached."
      ∷ []

  -- `_evaluate_portfolio`
  unfoldable pub evaluate_portfolio :
      ℕ → EntrySignal F → List (HeldPosition F) → List (ClosedTrade F) → LayerResult
  evaluate_portfolio now s positions trades =
      layer_result "portfolio" "portfolio checks passed." (portfolio_checks now s positions trades)

  -- `_spread` within the limit; a spread that is not known passes.
  within_spread : EntrySignal F → Option F → Option F → Bool
  within_spread s (some bid) (some ask) =
      le (abs (sub ask bid)) (round (mul s.observed_price settings.max_spread_percent_of_price) 8)
  within_spread s _ _ = true

  stale_price : EntrySignal F → Option ℕ → Bool
  unfolding max
  stale_price s none = true
  stale_price s (some seen) =
      lt settings.price_stale_after_seconds
        (max fl (literal "0.0") (total_seconds seen s.signal_at))

  unfoldable pub market_quality_checks :
      (String → String) → RuntimeView → EntrySignal F → List Check
  unfolding within_spread stale_price status_permits check
  market_quality_checks upper manager s =
      check "spread_gate" (within_spread s s.bid s.ask)
        "Observed spread is within the configured threshold."
        "Observed spread exceeds the configured threshold."
      ∷ check "stale_price_gate" (not (stale_price s (manager.last_price_updated_at s.instrument)))
          "Latest price update is fresh enough for execution." "Latest price update is stale."
      ∷ check "market_status_gate" (status_permits upper s.market_status)
          "Market status permits fresh entries." "Market status does not permit fresh entries."
      ∷ []

  -- `_evaluate_market_quality`
  unfoldable pub evaluate_market_quality :
      (String → String) → RuntimeView → EntrySignal F → LayerResult
  evaluate_market_quality upper manager s =
      layer_result "market_quality" "market_quality checks passed."
        (market_quality_checks upper manager s)

  unfoldable pub platform_health_checks :
      RuntimeView → EntrySignal F → List RuntimeState → List Check
  unfolding is_unhealthy check
  platform_health_checks manager s runtimes =
      check "price_feed_health" (is_no_error (manager.price_error s.instrument))
        "No active price-feed error for this instrument."
        "Instrument has an active price-feed error."
      ∷ check "runtime_recovery_state" (not (any (is_unhealthy manager) runtimes))
          "No runtime is currently flagged as unhealthy."
          "At least one runtime is flagged as unhealthy."
      ∷ []

  -- `_evaluate_platform_health`
  unfoldable pub evaluate_platform_health :
      RuntimeView → EntrySignal F → List RuntimeState → LayerResult
  evaluate_platform_health manager s runtimes =
      layer_result "platform_health" "platform_health checks passed."
        (platform_health_checks manager s runtimes)

  unfoldable pub kill_switch_checks :
      ℕ → RuntimeView → List (ClosedTrade F) → List RuntimeState → List Check
  unfolding is_unhealthy within_daily_loss check
  kill_switch_checks now manager trades runtimes =
      check "global_entry_kill_switch" (not settings.global_entry_kill_switch)
        "Global entry kill switch is not active." "Global entry kill switch is active."
      ∷ check "unhealthy_runtime_count"
          (leb (count (is_unhealthy manager) runtimes) settings.max_unhealthy_runtimes)
          "Unhealthy runtime count is within the kill-switch tolerance."
          "Unhealthy runtime count exceeded the kill-switch tolerance."
      ∷ check "daily_drawdown_kill_switch" (within_daily_loss now trades)
          "Daily drawdown kill switch is not active." "Daily drawdown kill switch is active."
      ∷ []

  -- `_evaluate_kill_switch`
  unfoldable pub evaluate_kill_switch :
      ℕ → RuntimeView → List (ClosedTrade F) → List RuntimeState → LayerResult
  evaluate_kill_switch now manager trades runtimes =
      layer_result "kill_switch" "kill_switch checks passed."
        (kill_switch_checks now manager trades runtimes)
