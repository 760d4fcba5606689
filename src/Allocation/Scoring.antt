-- ===== src/Allocation/Scoring.antt =====
-- How a candidate is priced and scored: `_entry_price`, `_requested_risk_percent`, `_family_name`,
-- `_reject_if_stale` and `_score_components` of backend/app/services/capital_allocator_service.py.
use codex_trading_app.Prelude.{
  ℕ, String, str_eq, Bool, not, Option, none, some, List, [], ◌∷◌, if◌then◌else◌,
}
use codex_trading_app.Allocation.Floats.{Floats, max, min, float_or, or_float}
use codex_trading_app.Allocation.Signals.{
  OrderDirection, buy, sell, EntrySignal, SignalCandidate, BrokerMarketDetails, Brokers, family_or,
}
use codex_trading_app.Allocation.Decision.{AllocationDecision, AllocationSettings, unselected}
use codex_trading_app.Allocation.State.{OpenState}

module _ (fl : Floats) {E : Type 0} (brokers : Brokers fl.F E)
    (settings : AllocationSettings fl.F) where
  open fl use {F, literal, add, sub, mul, div, lt, le, eq, round, total_seconds}
  open brokers use {currency_buckets}

  -- `_entry_price`: the ask of a purchase, the bid of a sale, else the observed price.
  quoted : OrderDirection → EntrySignal F → Option F
  quoted buy s = s.ask
  quoted sell s = s.bid

  unfoldable pub entry_price : EntrySignal F → F
  unfolding quoted float_or
  entry_price s = float_or fl (quoted s.direction s) s.observed_price

  -- `_requested_risk_percent`: 0 stands for the default.
  unfoldable pub requested_risk : EntrySignal F → F
  unfolding max or_float
  requested_risk s =
      max fl (or_float fl (some s.risk_percent) settings.allocation_default_risk_per_trade_percent)
        (literal "0.0")

  unfoldable pub family_name : SignalCandidate F E → String
  family_name c = family_or c.family_name c.strategy_name

  -- `_reject_if_stale`
  unfoldable pub is_stale : ℕ → EntrySignal F → Bool
  is_stale now s =
      not (le (total_seconds s.signal_at now) settings.trade_allocator_signal_stale_after_seconds)

  unfoldable pub stale_decision : SignalCandidate F E → EntrySignal F → AllocationDecision F E
  unfolding unselected requested_risk
  stale_decision candidate s = unselected fl candidate "stale_signal" (requested_risk s)

  -- `1.0 - min(value, limit) / limit`, not below 0.
  headroom : F → F → F
  unfolding max min
  headroom value limit =
      max fl (literal "0.0") (sub (literal "1.0") (div (min fl value limit) limit))

  confidence_score : SignalCandidate F E → F
  unfolding max min float_or
  confidence_score c =
      max fl (literal "0.0") (min fl (float_or fl c.confidence (literal "0.5")) (literal "1.0"))

  freshness_score : ℕ → EntrySignal F → F
  unfolding headroom max
  freshness_score now s =
      if lt (literal "0.0") settings.max_price_age_ms
      then headroom
          (max fl (mul (total_seconds s.signal_at now) (literal "1000.0")) (literal "0.0"))
          settings.max_price_age_ms
      else literal "1.0"

  -- `signal.ask - signal.bid`, where both are known.
  spread_of : Option F → Option F → Option F
  spread_of (some bid) (some ask) = some (sub ask bid)
  spread_of _ _ = none

  spread_score : EntrySignal F → F
  unfolding spread_of headroom
  spread_score s = elim (spread_of s.bid s.ask) [
    | none ↦ literal "0.5"
    | some spread ↦
        if lt (literal "0.0") settings.max_spread_pips
        then headroom spread settings.max_spread_pips
        else literal "0.5"
  ]

  reward_risk_score : Option F → F
  unfolding max min
  reward_risk_score none = literal "0.5"
  reward_risk_score (some ratio) =
      max fl (literal "0.0") (min fl (div ratio (literal "3.0")) (literal "1.0"))

  -- The penalty of 0.1 for each currency that is at half of its budget.
  currency_penalty : OpenState F → F → List String → F
  currency_penalty book penalty [] = penalty
  currency_penalty book penalty (c ∷ cs) =
      currency_penalty book
        (if le (mul settings.allocation_max_risk_per_currency_percent (literal "0.5"))
            (book.currency_risk c)
          then add penalty (literal "0.1")
          else penalty)
        cs

  diversification_score :
      SignalCandidate F E → EntrySignal F → OpenState F → Option BrokerMarketDetails → F
  unfolding max currency_penalty family_name
  diversification_score c s book details =
      let family = family_name c in
      let p₁ =
        if lt (literal "0.0") (book.instrument_risk c.instrument)
        then add (literal "0.0") (literal "0.35")
        else literal "0.0" in
      let p₂ =
        if lt (literal "0.0") (book.family_risk family) then add p₁ (literal "0.1") else p₁ in
      max fl (literal "0.0")
        (sub (literal "1.0") (currency_penalty book p₂ (currency_buckets s.instrument details)))

  -- `_score_components` and their sum: `round(sum(score_components.values()), 6)`.
  weighted : F → String → F
  weighted score weight = round (mul score (literal weight)) 6

  unfoldable pub priority_score :
      SignalCandidate F E → EntrySignal F → ℕ → OpenState F → Option BrokerMarketDetails → F
  unfolding confidence_score freshness_score spread_score reward_risk_score diversification_score
      weighted
  priority_score c s now book details =
      let confidence = weighted (confidence_score c) "0.30" in
      let freshness = weighted (freshness_score now s) "0.20" in
      let spread = weighted (spread_score s) "0.15" in
      let source_quality =
        weighted (if str_eq c.source_tier "TIER1" then literal "1.0" else literal "0.85") "0.10" in
      let reward_risk = weighted (reward_risk_score s.expected_reward_risk) "0.10" in
      let diversification = weighted (diversification_score c s book details) "0.15" in
      round
        (add
          (add (add (add (add (add (literal "0") confidence) freshness) spread) source_quality)
            reward_risk)
          diversification)
        6
