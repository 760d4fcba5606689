-- ===== src/Risk/Examples.antt =====
-- An entry that the risk controls approve, one that they reject, and the theorems about them
-- (backend/app/services/portfolio_risk_service.py) at concrete inputs.
use codex_trading_app.Prelude.{
  ℕ, String, ◌≡◌, refl, Bool, true, false, none, some, List, [], ◌∷◌, ◌++◌, map, if◌then◌else◌,
}
use codex_trading_app.Allocation.Whole.{whole}
use codex_trading_app.Allocation.Signals.{buy, EntrySignal}
use codex_trading_app.Risk.Records.{RiskSettings, LayerResult, approved, rejected, layer_result}
use codex_trading_app.Risk.PreTrade.{
  load_recent_entry_trade_intents, pre_trade_checks, evaluate_pre_trade,
}
use codex_trading_app.Risk.Limits.{
  portfolio_checks, evaluate_portfolio, market_quality_checks, evaluate_market_quality,
  platform_health_checks, evaluate_platform_health, kill_switch_checks, evaluate_kill_switch,
}
use codex_trading_app.Risk.Assessment.{
  Situation, intents_of, runtimes_of, has_failed, skipped, audit_layers, verdict, layers,
  assess_entry,
}
use codex_trading_app.Risk.Verdict.{every_check, rejection_names_first, approved_iff_every_check}
use codex_trading_app.Risk.Entries.{KeepsLimits, approved-KeepsLimits}
use codex_trading_app.Risk.KillSwitch.{kill_switch_is_global}

abbrev limits : Bool → RiskSettings ℕ
limits kill_switch = record {
  one_position_per_instrument = true;
  max_positions_per_strategy = 3;
  max_open_positions = 6;
  max_open_risk_percent = 4;
  max_position_notional = 25000;
  daily_loss_limit = 900;
  max_spread_percent_of_price = 1;
  price_stale_after_seconds = 15000000;
  entry_burst_limit = 3;
  entry_burst_window = 300000000;
  failed_entry_retry_cooldown = 120000000;
  cooldown_after_loss = 20000000;
  cooldown_after_exit = 10000000;
  duplicate_signal_window = 30000000;
  max_unhealthy_runtimes = 0;
  global_entry_kill_switch = kill_switch;
}

-- `str.upper` on the text of the run.
abbrev upper : String → String
upper t = t

abbrev signal : EntrySignal ℕ
signal = record {
  strategy_name = "trend";
  instrument = "EURUSD";
  observed_price = 2;
  signal_at = 1000000000;
  direction = buy;
  size = 10;
  risk_percent = 1;
  stop_loss_price = none;
  expected_reward_risk = none;
  bid = some 2;
  ask = some 3;
  market_status = some "OPEN";
  tradable = some true;
}

-- A position on another instrument, an older loss, and an intent that was rejected.
abbrev calm : Situation ℕ
calm = record {
  open_positions =
      (record {
        strategy_name = "trend";
        instrument = "GBPUSD";
        risk_percent = some 1;
        is_open = true;
      })
      ∷ [];
  trades =
      (record { strategy_name = "trend"; instrument = "EURUSD"; pnl = 200; close_time = 900000000 })
      ∷ [];
  session = some (record {
    trade_intents =
        (record {
          strategy_name = "trend";
          instrument = "EURUSD";
          direction = "BUY";
          state = "REJECTED";
          position_id = none;
          created_at = 990000000;
          signal_time = 990000000;
        })
        ∷ [];
    active_runtimes =
        (record { strategy_name = "trend"; instrument = "EURUSD"; recovery_state = "RECOVERED" })
        ∷ [];
  });
  manager = record {
    last_price_updated_at = λ i. some 999000000;
    price_error = λ i. none;
    has_engine = λ s i. true;
  };
  portfolio_now = 1000000000;
  kill_switch_now = 1000000001;
}

-- The same with a position on the instrument.
abbrev held : Situation ℕ
held = record calm {
  open_positions =
      (record {
        strategy_name = "revert";
        instrument = "EURUSD";
        risk_percent = some 1;
        is_open = true;
      })
      ∷ [];
}

calm_approved : (assess_entry whole (limits false) upper signal calm).status ≡ approved
unfolding assess_entry layers audit_layers verdict evaluate_pre_trade evaluate_portfolio
    evaluate_market_quality evaluate_platform_health evaluate_kill_switch layer_result
    pre_trade_checks portfolio_checks market_quality_checks platform_health_checks
    kill_switch_checks load_recent_entry_trade_intents
calm_approved = refl

switched_off :
    (assess_entry whole (limits true) upper signal calm).rejection_layer ≡ some "kill_switch"
unfolding assess_entry layers audit_layers verdict evaluate_pre_trade evaluate_portfolio
    evaluate_market_quality evaluate_platform_health evaluate_kill_switch layer_result
    pre_trade_checks portfolio_checks market_quality_checks platform_health_checks
    kill_switch_checks load_recent_entry_trade_intents
switched_off = refl

approved_iff_every_check_example :
    (assess_entry whole (limits false) upper signal held).status
    ≡ (if every_check whole (limits false) upper signal held then approved else rejected)
approved_iff_every_check_example = approved_iff_every_check whole (limits false) upper signal held

approved-KeepsLimits_example : KeepsLimits whole (limits false) upper signal calm
approved-KeepsLimits_example =
    approved-KeepsLimits whole (limits false) upper signal calm calm_approved

kill_switch_is_global_example :
    ((assess_entry whole (limits true) upper signal calm).reason
      ≡ "Global entry kill switch is active.")
    × ((limits true).global_entry_kill_switch ≡ true)
kill_switch_is_global_example =
    kill_switch_is_global whole (limits true) upper signal calm refl switched_off

-- The layers of the rejected entry: the first fails.
abbrev held_first : LayerResult
held_first =
    evaluate_pre_trade whole (limits false) signal held.open_positions held.trades
      (load_recent_entry_trade_intents whole (limits false) signal (intents_of held.session))

abbrev held_rest : List LayerResult
held_rest =
    evaluate_portfolio whole (limits false) held.portfolio_now signal held.open_positions
      held.trades
    ∷ evaluate_market_quality whole (limits false) upper held.manager signal
    ∷ evaluate_platform_health whole (limits false) held.manager signal (runtimes_of held.session)
    ∷ evaluate_kill_switch whole (limits false) held.kill_switch_now held.manager held.trades
        (runtimes_of held.session)
    ∷ []

held_results : layers whole (limits false) upper signal held ≡ [] ++ held_first ∷ held_rest
unfolding layers
held_results = refl

held_failed : has_failed held_first.passed ≡ true
unfolding evaluate_pre_trade layer_result pre_trade_checks load_recent_entry_trade_intents
held_failed = refl

rejection_names_first_example : assess_entry whole (limits false) upper signal held ≡ record {
  status = rejected;
  reason = held_first.reason;
  rejection_layer = some held_first.layer;
  audit_trail = [] ++ held_first ∷ map skipped held_rest;
}
rejection_names_first_example =
    rejection_names_first whole (limits false) upper signal held [] held_rest held_first
      held_results refl held_failed
