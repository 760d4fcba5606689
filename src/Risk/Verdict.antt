-- ===== src/Risk/Verdict.antt =====
-- The verdict of backend/app/services/portfolio_risk_service.py against all its checks: which layer
-- rejects, and when none does.
use codex_trading_app.Prelude.{
  String, ◌≡◌, refl, Bool, true, false, not, Option, none, some, List, [], ◌∷◌, ◌++◌, map, all,
  arith, if◌then◌else◌,
}
use mathlib.Core.List.{append-nil, append_assoc}
use codex_trading_app.Allocation.Floats.{Floats}
use codex_trading_app.Allocation.Signals.{EntrySignal}
use codex_trading_app.Risk.Records.{
  RiskSettings, Check, LayerResult, approved, rejected, first_failed, layer_result,
}
use codex_trading_app.Risk.Assessment.{
  Audit, intents_of, runtimes_of, fresh_audit, skipped, has_failed, audit_layer, audit_layers,
  verdict, Situation, layers, assess_entry,
}
use codex_trading_app.Risk.PreTrade.{
  load_recent_entry_trade_intents, pre_trade_checks, evaluate_pre_trade,
}
use codex_trading_app.Risk.Limits.{
  portfolio_checks, evaluate_portfolio, market_quality_checks, evaluate_market_quality,
  platform_health_checks, evaluate_platform_health, kill_switch_checks, evaluate_kill_switch,
}

-- No layer of a list has failed.
abbrev pub none_failed : List LayerResult → Bool
none_failed ls = all (λ l. not (has_failed l.passed)) ls

-- The audit before a rejection, and after one.
abbrev pub going : List LayerResult → Audit
going done = record fresh_audit { audited_layers = done }

abbrev pub stopped : LayerResult → List LayerResult → Audit
stopped l done = record {
  rejection_layer = some l.layer;
  rejection_reason = some l.reason;
  audited_layers = done;
  blocked = true;
}

pub audit-stopped :
    (failing : LayerResult) (ls done : List LayerResult)
    → audit_layers ls (stopped failing done) ≡ stopped failing (done ++ map skipped ls)
unfolding audit_layers audit_layer
audit-stopped failing [] done = cc (append-nil done)
audit-stopped failing (l ∷ ls) done = cc (
  audit-stopped failing ls (done ++ skipped l ∷ []),
  append_assoc done (skipped l ∷ []) (map skipped ls),
)

audit-going :
    (ls rest done : List LayerResult)
    → none_failed ls ≡ true
    → audit_layers (ls ++ rest) (going done) ≡ audit_layers rest (going (done ++ ls))
unfolding audit_layers audit_layer
audit-going [] rest done passed = cc (append-nil done)
audit-going (l ∷ ls) rest done passed =
    grind (arith, audit-going ls rest (done ++ l ∷ []), append_assoc done (l ∷ []) ls)

status-audit_layers :
    (ls done : List LayerResult)
    → (verdict (audit_layers ls (going done))).status
      ≡ (if none_failed ls then approved else rejected)
unfolding audit_layers audit_layer verdict
status-audit_layers [] done = refl
status-audit_layers (l ∷ ls) done =
    grind (arith, status-audit_layers ls (done ++ l ∷ []), audit-stopped l ls (done ++ l ∷ []))

-- The checks of a layer.
abbrev pub all_passed : List Check → Bool
all_passed cs = all (λ c. c.passed) cs

abbrev is_clear : Option Check → Bool
is_clear none = true
is_clear (some c) = false

is_clear-first_failed : (cs : List Check) → is_clear (first_failed cs) ≡ all_passed cs
unfolding first_failed
is_clear-first_failed [] = refl
is_clear-first_failed (c ∷ cs) = ground (arith, is_clear-first_failed cs)

pub checks-layer_result :
    (layer why : String) (cs : List Check) → (layer_result layer why cs).checks ≡ cs
unfolding layer_result
checks-layer_result layer why cs = ground arith

-- A layer fails exactly when one of its checks does.
pub layer_result-all_passed :
    (layer why : String) (cs : List Check)
    → not (has_failed (layer_result layer why cs).passed) ≡ all_passed cs
unfolding layer_result
layer_result-all_passed layer why cs = ground (arith, is_clear-first_failed cs)

layer_result-agrees :
    (layer why : String) (cs : List Check)
    → let l = layer_result layer why cs in not (has_failed l.passed) ≡ all_passed l.checks
layer_result-agrees layer why cs =
    cc (layer_result-all_passed layer why cs, checks-layer_result layer why cs)

verdict-first :
    (before after : List LayerResult) (failing : LayerResult)
    → none_failed before ≡ true
    → has_failed failing.passed ≡ true
    → verdict (audit_layers (before ++ failing ∷ after) fresh_audit) ≡ record {
      status = rejected;
      reason = failing.reason;
      rejection_layer = some failing.layer;
      audit_trail = before ++ failing ∷ map skipped after;
    }
unfolding audit_layers audit_layer verdict
verdict-first before after failing passed failed = grind (
  arith,
  audit-going before (failing ∷ after) [] passed,
  audit-stopped failing after (before ++ failing ∷ []),
  append_assoc before (failing ∷ []) (map skipped after),
)

module _ (fl : Floats) (settings : RiskSettings fl.F) (upper : String → String) where
  open fl use {F}

  -- The first layer that fails decides: where the layers before it passed, the signal is rejected in
  -- its name and for its reason, and the audit shows them as they were, that layer, and each later
  -- layer as skipped.
  pub rejection_names_first :
      (s : EntrySignal F) (w : Situation F) (before after : List LayerResult)
      (failing : LayerResult)
      → layers fl settings upper s w ≡ before ++ failing ∷ after
      → none_failed before ≡ true
      → has_failed failing.passed ≡ true
      → assess_entry fl settings upper s w ≡ record {
        status = rejected;
        reason = failing.reason;
        rejection_layer = some failing.layer;
        audit_trail = before ++ failing ∷ map skipped after;
      }
  unfolding assess_entry
  rejection_names_first s w before after failing split passed failed =
      rw split (verdict-first before after failing passed failed)

  -- Every check of every layer.
  abbrev pub every_check : EntrySignal F → Situation F → Bool
  every_check s w = all (λ l. all_passed l.checks) (layers fl settings upper s w)

  none_failed-layers :
      (s : EntrySignal F) (w : Situation F)
      → none_failed (layers fl settings upper s w) ≡ every_check s w
  unfolding layers evaluate_pre_trade evaluate_portfolio evaluate_market_quality
      evaluate_platform_health evaluate_kill_switch
  none_failed-layers s w =
      let runtimes = runtimes_of w.session in
      let recent = load_recent_entry_trade_intents fl settings s (intents_of w.session) in
      cc (
        layer_result-agrees "pre_trade" "pre_trade checks passed."
            (pre_trade_checks fl settings s w.open_positions w.trades recent),
        layer_result-agrees "portfolio" "portfolio checks passed."
            (portfolio_checks fl settings w.portfolio_now s w.open_positions w.trades),
        layer_result-agrees "market_quality" "market_quality checks passed."
            (market_quality_checks fl settings upper w.manager s),
        layer_result-agrees "platform_health" "platform_health checks passed."
            (platform_health_checks fl settings w.manager s runtimes),
        layer_result-agrees "kill_switch" "kill_switch checks passed."
            (kill_switch_checks fl settings w.kill_switch_now w.manager w.trades runtimes),
      )

  -- A signal is approved exactly when every check of every layer passes, and it is rejected
  -- otherwise.
  pub approved_iff_every_check :
      (s : EntrySignal F) (w : Situation F)
      → (assess_entry fl settings upper s w).status
        ≡ (if every_check s w then approved else rejected)
  unfolding assess_entry
  approved_iff_every_check s w =
      rw (← none_failed-layers s w) (status-audit_layers (layers fl settings upper s w) [])
