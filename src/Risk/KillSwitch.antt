-- ===== src/Risk/KillSwitch.antt =====
-- The last layer of backend/app/services/portfolio_risk_service.py repeats two checks of the layers
-- before it.
use codex_trading_app.Prelude.{
  ℕ, String, ◌≡◌, refl, sym, ◌∙◌, Bool, true, false, Option, none, some, List, [], ◌∷◌, ◌++◌, any,
  count, ◌==◌, arith, eq_iff, if◌then◌else◌,
}
use codex_trading_app.Allocation.Floats.{Floats}
use codex_trading_app.Allocation.Signals.{EntrySignal}
use codex_trading_app.Risk.Records.{
  ClosedTrade, RuntimeState, RuntimeView, Check, RiskSettings, LayerResult, check, first_failed,
  layer_result,
}
use codex_trading_app.Risk.PreTrade.{evaluate_pre_trade}
use codex_trading_app.Risk.Limits.{
  date, is_unhealthy, pnl_from, daily_closed_pnl, within_daily_loss, portfolio_checks,
  evaluate_portfolio, evaluate_market_quality, platform_health_checks, evaluate_platform_health,
  kill_switch_checks, evaluate_kill_switch,
}
use codex_trading_app.Risk.Assessment.{
  audit_layer, audit_layers, verdict, has_failed, runtimes_of, Situation, layers, assess_entry,
}
use codex_trading_app.Risk.Verdict.{going, audit-stopped, all_passed, layer_result-all_passed}
use codex_trading_app.Risk.Entries.{recent_of, portfolio-facts, platform_health-facts}

-- The layer that a rejection names, read off the results.
abbrev named : List LayerResult → Option String
named [] = none
named (l ∷ ls) = let rest = named ls in if has_failed l.passed then some l.layer else rest

abbrev why : List LayerResult → String
why [] = "Approved by layered risk controls."
why (l ∷ ls) = let rest = why ls in if has_failed l.passed then l.reason else rest

rejection_layer-verdict :
    (ls done : List LayerResult)
    → (verdict (audit_layers ls (going done))).rejection_layer ≡ named ls
unfolding audit_layers audit_layer verdict
rejection_layer-verdict [] done = refl
rejection_layer-verdict (l ∷ ls) done =
    grind (arith, rejection_layer-verdict ls (done ++ l ∷ []), audit-stopped l ls (done ++ l ∷ []))

reason-verdict :
    (ls done : List LayerResult) → (verdict (audit_layers ls (going done))).reason ≡ why ls
unfolding audit_layers audit_layer verdict
reason-verdict [] done = refl
reason-verdict (l ∷ ls) done =
    grind (arith, reason-verdict ls (done ++ l ∷ []), audit-stopped l ls (done ++ l ∷ []))

none_counted : {A : Type 0} (p : A → Bool) (xs : List A) → any p xs ≡ false → count p xs ≡ 0
none_counted p [] h = refl
none_counted p (x ∷ xs) h = ground (arith, h, none_counted p xs)

module _ (fl : Floats) (settings : RiskSettings fl.F) where
  open fl use {F}

  pnl_from-same_date :
      (total : F) (a b : ℕ) (trades : List (ClosedTrade F))
      → date a ≡ date b
      → pnl_from fl settings total a trades ≡ pnl_from fl settings total b trades
  unfolding pnl_from
  pnl_from-same_date total a b [] h = refl
  pnl_from-same_date total a b (t ∷ ts) h = rw h (
      pnl_from-same_date (if date t.close_time == date b then fl.add total t.pnl else total) a b ts
        h)

  within_daily_loss-same_date :
      (a b : ℕ) (trades : List (ClosedTrade F))
      → date a ≡ date b
      → within_daily_loss fl settings a trades ≡ within_daily_loss fl settings b trades
  unfolding within_daily_loss daily_closed_pnl
  within_daily_loss-same_date a b trades h = cc (pnl_from-same_date (fl.literal "0") a b trades h)

  -- Where its other two checks pass, the kill-switch layer fails for the switch.
  kill_switch-reason :
      (now : ℕ) (manager : RuntimeView) (trades : List (ClosedTrade F))
      (runtimes : List RuntimeState)
      → any (is_unhealthy manager) runtimes ≡ false
      → within_daily_loss fl settings now trades ≡ true
      → let l = evaluate_kill_switch fl settings now manager trades runtimes in
        has_failed l.passed ≡ true
        → (l.reason ≡ "Global entry kill switch is active.")
          × (settings.global_entry_kill_switch ≡ true)
  unfolding evaluate_kill_switch layer_result first_failed kill_switch_checks check
  kill_switch-reason now manager trades runtimes healthy within failed =
      ground (arith, healthy, within, failed, none_counted (is_unhealthy manager) runtimes healthy)

layer-layer_result :
    (layer why : String) (cs : List Check) → (layer_result layer why cs).layer ≡ layer
unfolding layer_result
layer-layer_result layer why cs = ground arith

-- A rejection in the name of the last of five layers.
last_named :
    (a b c d e : LayerResult)
    → a.layer ≡ "pre_trade"
    → b.layer ≡ "portfolio"
    → c.layer ≡ "market_quality"
    → d.layer ≡ "platform_health"
    → named (a ∷ b ∷ c ∷ d ∷ e ∷ []) ≡ some "kill_switch"
    → (has_failed b.passed ≡ false)
      × (has_failed d.passed ≡ false)
      × (has_failed e.passed ≡ true)
      × (why (a ∷ b ∷ c ∷ d ∷ e ∷ []) ≡ e.reason)
last_named a b c d e ha hb hc hd h = grind (
  arith,
  eq_iff "pre_trade" "kill_switch",
  eq_iff "portfolio" "kill_switch",
  eq_iff "market_quality" "kill_switch",
  eq_iff "platform_health" "kill_switch",
)

module _ (fl : Floats) (settings : RiskSettings fl.F) (upper : String → String) where
  open fl use {F}

  -- What a rejection in the name of the last layer says of the layers.
  named-layers :
      (s : EntrySignal F) (w : Situation F)
      → named (layers fl settings upper s w) ≡ some "kill_switch"
      → let runtimes = runtimes_of w.session in
        let portfolio =
          evaluate_portfolio fl settings w.portfolio_now s w.open_positions w.trades in
        let health = evaluate_platform_health fl settings w.manager s runtimes in
        let switch =
          evaluate_kill_switch fl settings w.kill_switch_now w.manager w.trades runtimes in
        (has_failed portfolio.passed ≡ false)
        × (has_failed health.passed ≡ false)
        × (has_failed switch.passed ≡ true)
        × (why (layers fl settings upper s w) ≡ switch.reason)
  unfolding layers evaluate_pre_trade evaluate_portfolio evaluate_market_quality
      evaluate_platform_health
  named-layers s w h =
      let runtimes = runtimes_of w.session in
      last_named
        (evaluate_pre_trade fl settings s w.open_positions w.trades
          (recent_of fl settings upper s w))
        (evaluate_portfolio fl settings w.portfolio_now s w.open_positions w.trades)
        (evaluate_market_quality fl settings upper w.manager s)
        (evaluate_platform_health fl settings w.manager s runtimes)
        (evaluate_kill_switch fl settings w.kill_switch_now w.manager w.trades runtimes)
        (layer-layer_result _ _ _) (layer-layer_result _ _ _) (layer-layer_result _ _ _)
        (layer-layer_result _ _ _) h

  portfolio-within :
      (s : EntrySignal F) (w : Situation F)
      → has_failed
          (evaluate_portfolio fl settings w.portfolio_now s w.open_positions w.trades).passed
        ≡ false
      → within_daily_loss fl settings w.portfolio_now w.trades ≡ true
  unfolding evaluate_portfolio
  portfolio-within s w h =
      let checks = portfolio_checks fl settings w.portfolio_now s w.open_positions w.trades in
      let passed : all_passed checks ≡ true =
        cc (h, layer_result-all_passed "portfolio" "portfolio checks passed." checks) in
      (portfolio-facts fl settings upper s w passed).3

  health-healthy :
      (s : EntrySignal F) (w : Situation F)
      → has_failed (evaluate_platform_health fl settings w.manager s (runtimes_of w.session)).passed
        ≡ false
      → any (is_unhealthy w.manager) (runtimes_of w.session) ≡ false
  unfolding evaluate_platform_health
  health-healthy s w h =
      let checks = platform_health_checks fl settings w.manager s (runtimes_of w.session) in
      let passed : all_passed checks ≡ true =
        cc (h, layer_result-all_passed "platform_health" "platform_health checks passed." checks) in
      platform_health-facts fl settings upper s w passed

  -- Where both clock readings of an assessment fall on one UTC date, a rejection in the name of the
  -- kill-switch layer is always for the global switch: its checks of unhealthy runtimes and of the
  -- day's loss cannot fail, since the layers before it have made them.
  pub kill_switch_is_global :
      (s : EntrySignal F) (w : Situation F)
      → date w.portfolio_now ≡ date w.kill_switch_now
      → (assess_entry fl settings upper s w).rejection_layer ≡ some "kill_switch"
      → ((assess_entry fl settings upper s w).reason ≡ "Global entry kill switch is active.")
        × (settings.global_entry_kill_switch ≡ true)
  unfolding assess_entry
  kill_switch_is_global s w same_date h =
      let all_layers = layers fl settings upper s w in
      let (portfolio, health, switch, reason) =
        named-layers s w (sym (rejection_layer-verdict all_layers []) ∙ h) in
      let within = portfolio-within s w portfolio in
      let carried =
        within_daily_loss-same_date fl settings w.portfolio_now w.kill_switch_now w.trades
          same_date in
      let (global, on) =
        kill_switch-reason fl settings w.kill_switch_now w.manager w.trades (runtimes_of w.session)
          (health-healthy s w health) (sym carried ∙ within) switch in
      (reason-verdict all_layers [] ∙ reason ∙ global, on)
