-- ===== src/Allocation/Planning.antt =====
-- `_prepare_candidate_plan` of backend/app/services/capital_allocator_service.py.
use codex_trading_app.Prelude.{
  ℕ, Bool, true, false, not, ◌&&◌, ◌||◌, Option, none, some, Attempt, ok, raised, if◌then◌else◌,
}
use codex_trading_app.Allocation.Floats.{Floats, max, or_float}
use codex_trading_app.Allocation.Signals.{
  EntrySignal, SignalCandidate, BrokerSizingPrecision, unsupported, BrokerMarketDetails,
  BrokerRiskSizingQuote, Brokers,
}
use codex_trading_app.Allocation.Decision.{
  AllocationDecision, CandidatePlan, AllocationSettings, is_approximate, reject_candidate,
}
use codex_trading_app.Allocation.State.{OpenState}
use codex_trading_app.Allocation.Scoring.{entry_price, requested_risk, family_name, priority_score}

abbrev is_unsupported : BrokerSizingPrecision → Bool
is_unsupported unsupported = true
is_unsupported _ = false

module _ (fl : Floats) {E : Type 0} (brokers : Brokers fl.F E)
    (settings : AllocationSettings fl.F) where
  open fl use {F, literal, mul, div, le}
  open brokers use {
    is_live, account_equity, get_market_details, quote_risk_sized_order, currency_buckets,
  }

  -- The plan of a quote that is accepted.
  plan_of :
      SignalCandidate F E
      → EntrySignal F
      → ℕ
      → OpenState F
      → F
      → BrokerMarketDetails
      → BrokerRiskSizingQuote F
      → CandidatePlan F E
  unfolding requested_risk family_name priority_score max
  plan_of c s now book equity details quote = record {
    candidate = c;
    signal = s;
    family_name = family_name fl brokers settings c;
    requested_risk_percent = requested_risk fl brokers settings s;
    requested_size = max fl quote.requested_size (literal "0.0");
    risk_amount = quote.risk_amount;
    account_equity = equity;
    entry_price = quote.entry_price;
    priority_score = priority_score fl brokers settings c s now book (some details);
    precision = quote.precision;
    currencies = currency_buckets s.instrument (some details);
  }

  -- The tests on a quote, in the code's order.
  judge_quote :
      SignalCandidate F E
      → EntrySignal F
      → ℕ
      → OpenState F
      → F
      → BrokerMarketDetails
      → BrokerRiskSizingQuote F
      → Attempt (AllocationDecision F E) (CandidatePlan F E)
  unfolding plan_of reject_candidate requested_risk
  judge_quote c s now book equity details quote =
      let risk = requested_risk fl brokers settings s in
      if not quote.sizing_available || is_unsupported quote.precision
      then raised (reject_candidate fl c "sizing_quote_unavailable" risk equity)
      else if is_approximate quote.precision && is_live c.engine
      then raised (reject_candidate fl c "approximate_sizing_unsupported" risk equity)
      else ok (plan_of c s now book equity details quote)

  -- The quote that is asked for; `none` where either broker call raises.
  ask_quote :
      SignalCandidate F E
      → EntrySignal F
      → F
      → Option (BrokerMarketDetails × BrokerRiskSizingQuote F)
  unfolding entry_price requested_risk max
  ask_quote c s equity =
      let price = entry_price fl brokers settings s in
      let amount = mul equity (div (requested_risk fl brokers settings s) (literal "100.0")) in
      let stop =
        max fl (mul price settings.allocation_fallback_stop_distance_percent) (literal "1e-9") in
      elim (get_market_details c.engine s.instrument) [
        | none ↦ none
        | some details ↦
            elim (quote_risk_sized_order c.engine s.instrument price amount s.stop_loss_price
              stop) [ none ↦ none | some quote ↦ some (details, quote) ]
      ]

  judge_equity :
      SignalCandidate F E
      → EntrySignal F
      → ℕ
      → OpenState F
      → F
      → Attempt (AllocationDecision F E) (CandidatePlan F E)
  unfolding judge_quote ask_quote reject_candidate requested_risk
  judge_equity c s now book equity =
      let risk = requested_risk fl brokers settings s in
      if le equity (literal "0")
      then raised (reject_candidate fl c "account_equity_invalid" risk equity)
      else elim (ask_quote c s equity) [
        | none ↦ raised (reject_candidate fl c "broker_metadata_unavailable" risk equity)
        | some (details, quote) ↦ judge_quote c s now book equity details quote
      ]

  -- The plan, or the rejection that stands in its place.
  unfoldable pub prepare_candidate_plan :
      SignalCandidate F E
      → EntrySignal F
      → ℕ
      → OpenState F
      → Attempt (AllocationDecision F E) (CandidatePlan F E)
  unfolding judge_equity reject_candidate requested_risk or_float
  prepare_candidate_plan c s now book =
      let risk = requested_risk fl brokers settings s in
      elim (account_equity c.engine) [
        | none ↦ raised (reject_candidate fl c "account_equity_unavailable" risk (literal "0.0"))
        | some equity ↦ judge_equity c s now book (or_float fl (some equity) (literal "0.0"))
      ]
