-- ===== src/Risk/Entries.antt =====
-- What an approval by backend/app/services/portfolio_risk_service.py says of the entry.
use codex_trading_app.Prelude.{
  ◌<◌, String, ◌≡◌, true, false, not, ◌&&◌, ◌||◌, List, any, count, length, ltb, arith,
}
use codex_trading_app.Allocation.Floats.{Floats}
use codex_trading_app.Allocation.Signals.{EntrySignal}
use codex_trading_app.Risk.Records.{EntryIntent, RiskSettings, approved, check}
use codex_trading_app.Risk.PreTrade.{
  is_smoke_test, load_recent_entry_trade_intents, open_same_instrument, same_strategy_instrument,
  open_for_strategy, is_duplicate, is_concurrent, pre_trade_checks, evaluate_pre_trade,
}
use codex_trading_app.Risk.Limits.{
  is_unhealthy, projected_risk, projected_notional, within_daily_loss, portfolio_checks,
  evaluate_portfolio, evaluate_market_quality, platform_health_checks, evaluate_platform_health,
  kill_switch_checks, evaluate_kill_switch,
}
use codex_trading_app.Risk.Assessment.{intents_of, runtimes_of, Situation, layers, assess_entry}
use codex_trading_app.Risk.Verdict.{
  all_passed, checks-layer_result, every_check, approved_iff_every_check,
}

module _ (fl : Floats) (settings : RiskSettings fl.F) (upper : String → String) where
  open fl use {F, le}

  -- The intents that the controls look at.
  abbrev pub recent_of : EntrySignal F → Situation F → List EntryIntent
  recent_of s w = load_recent_entry_trade_intents fl settings s (intents_of w.session)

  -- The limits that an entry keeps, in the situation that it is assessed in.
  pub record KeepsLimits (s : EntrySignal F) (w : Situation F) : Type 0 where
    pub portfolio_has_room : length w.open_positions < settings.max_open_positions
    pub strategy_has_room :
        count (open_for_strategy fl settings s) w.open_positions
        < settings.max_positions_per_strategy
    pub no_second_position : any (same_strategy_instrument fl settings s) w.open_positions ≡ false
    pub instrument_free :
        (settings.one_position_per_instrument
          && any (open_same_instrument fl settings s) w.open_positions)
        ≡ false
    pub not_repeated :
        (is_smoke_test s.strategy_name || not (any (is_duplicate fl settings s) (recent_of s w)))
        ≡ true
    pub no_burst :
        (is_smoke_test s.strategy_name
          || ltb (count (is_concurrent fl settings s) (recent_of s w)) settings.entry_burst_limit)
        ≡ true
    pub risk_within :
        le (projected_risk fl settings s w.open_positions) settings.max_open_risk_percent ≡ true
    pub notional_within :
        le (projected_notional fl settings s) settings.max_position_notional ≡ true
    pub loss_within : within_daily_loss fl settings w.portfolio_now w.trades ≡ true
    pub switch_off : settings.global_entry_kill_switch ≡ false
    pub platform_healthy : any (is_unhealthy w.manager) (runtimes_of w.session) ≡ false

  pre_trade-facts :
      (s : EntrySignal F) (w : Situation F)
      → all_passed (pre_trade_checks fl settings s w.open_positions w.trades (recent_of s w)) ≡ true
      → (count (open_for_strategy fl settings s) w.open_positions
          < settings.max_positions_per_strategy)
        × (any (same_strategy_instrument fl settings s) w.open_positions ≡ false)
        × ((settings.one_position_per_instrument
              && any (open_same_instrument fl settings s) w.open_positions)
            ≡ false)
        × ((is_smoke_test s.strategy_name || not (any (is_duplicate fl settings s) (recent_of s w)))
            ≡ true)
        × ((is_smoke_test s.strategy_name
              || ltb
                  (count (is_concurrent fl settings s) (recent_of s w))
                  settings.entry_burst_limit)
            ≡ true)
  unfolding pre_trade_checks check
  pre_trade-facts s w h = ground (arith, h)

  pub portfolio-facts :
      (s : EntrySignal F) (w : Situation F)
      → all_passed (portfolio_checks fl settings w.portfolio_now s w.open_positions w.trades) ≡ true
      → (length w.open_positions < settings.max_open_positions)
        × (le (projected_risk fl settings s w.open_positions) settings.max_open_risk_percent ≡ true)
        × (le (projected_notional fl settings s) settings.max_position_notional ≡ true)
        × (within_daily_loss fl settings w.portfolio_now w.trades ≡ true)
  unfolding portfolio_checks check
  portfolio-facts s w h = ground (arith, h)

  pub platform_health-facts :
      (s : EntrySignal F) (w : Situation F)
      → all_passed (platform_health_checks fl settings w.manager s (runtimes_of w.session)) ≡ true
      → any (is_unhealthy w.manager) (runtimes_of w.session) ≡ false
  unfolding platform_health_checks check
  platform_health-facts s w h = ground (arith, h)

  kill_switch-facts :
      (w : Situation F)
      → all_passed (
          kill_switch_checks fl settings w.kill_switch_now w.manager w.trades
            (runtimes_of w.session))
        ≡ true
      → settings.global_entry_kill_switch ≡ false
  unfolding kill_switch_checks check
  kill_switch-facts w h = ground (arith, h)

  -- An every-check verdict, layer by layer.
  every_check-parts :
      (s : EntrySignal F) (w : Situation F)
      → every_check fl settings upper s w ≡ true
      → (all_passed (pre_trade_checks fl settings s w.open_positions w.trades (recent_of s w))
          ≡ true)
        × (all_passed (portfolio_checks fl settings w.portfolio_now s w.open_positions w.trades)
            ≡ true)
        × (all_passed (platform_health_checks fl settings w.manager s (runtimes_of w.session))
            ≡ true)
        × (all_passed (
              kill_switch_checks fl settings w.kill_switch_now w.manager w.trades
                (runtimes_of w.session))
            ≡ true)
  unfolding layers evaluate_pre_trade evaluate_portfolio evaluate_market_quality
      evaluate_platform_health evaluate_kill_switch
  every_check-parts s w h =
      let runtimes = runtimes_of w.session in
      ground (
        arith,
        h,
        checks-layer_result "pre_trade" "pre_trade checks passed."
            (pre_trade_checks fl settings s w.open_positions w.trades (recent_of s w)),
        checks-layer_result "portfolio" "portfolio checks passed."
            (portfolio_checks fl settings w.portfolio_now s w.open_positions w.trades),
        checks-layer_result "platform_health" "platform_health checks passed."
            (platform_health_checks fl settings w.manager s runtimes),
        checks-layer_result "kill_switch" "kill_switch checks passed."
            (kill_switch_checks fl settings w.kill_switch_now w.manager w.trades runtimes),
      )

  approved-every_check :
      (s : EntrySignal F) (w : Situation F)
      → (assess_entry fl settings upper s w).status ≡ approved
      → every_check fl settings upper s w ≡ true
  approved-every_check s w h = grind (arith, h, approved_iff_every_check fl settings upper s w)

  -- An approved entry keeps the limits: there is room in the portfolio and for its strategy, its
  -- strategy holds no position on the instrument (and nobody does where the settings ask for that),
  -- its risk and its notional are within the caps, the day's loss is, no runtime with an engine is
  -- unhealthy and the kill switch is off; and except for the smoke test, no duplicate signal and no
  -- burst of entries precedes it.
  pub approved-KeepsLimits :
      (s : EntrySignal F) (w : Situation F)
      → (assess_entry fl settings upper s w).status ≡ approved
      → KeepsLimits s w
  approved-KeepsLimits s w h =
      let (pre_trade, portfolio, health, switch) =
        every_check-parts s w (approved-every_check s w h) in
      let (strategy, second, free, repeated, burst) = pre_trade-facts s w pre_trade in
      let (room, risk, notional, loss) = portfolio-facts s w portfolio in
      record {
        portfolio_has_room = room;
        strategy_has_room = strategy;
        no_second_position = second;
        instrument_free = free;
        not_repeated = repeated;
        no_burst = burst;
        risk_within = risk;
        notional_within = notional;
        loss_within = loss;
        switch_off = kill_switch-facts w switch;
        platform_healthy = platform_health-facts s w health;
      }
