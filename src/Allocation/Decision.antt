-- ===== src/Allocation/Decision.antt =====
-- Decisions, plans and settings of the capital allocator:
-- backend/app/services/capital_allocator_service.py and backend/app/core/config.py.
use codex_trading_app.Prelude.{ℕ, String, Bool, true, false, Option, none, List}
use codex_trading_app.Allocation.Floats.{Floats}
use codex_trading_app.Allocation.Signals.{
  EntrySignal, Signal, entry, SignalCandidate, BrokerSizingPrecision, approximate,
}

-- `AllocationDecision`, without its texts for display (`reason`, `notes` and the detail maps).
pub record AllocationDecision (F E : Type 0) : Type 0 where
  pub candidate : SignalCandidate F E
  pub cycle_id : String
  pub selected : Bool
  pub reason_code : String
  pub priority_score : F
  pub requested_size : F
  pub normalized_size : F
  pub requested_risk_percent : F
  pub allocated_risk_percent : F
  pub risk_amount : F
  pub account_equity : F
  pub binding_budget : Option String
  pub degraded : Bool

-- `CandidatePlan`, without what it keeps for display. `signal` is the candidate's entry signal,
-- which `_require_entry_signal` reads again from the candidate.
pub record CandidatePlan (F E : Type 0) : Type 0 where
  pub candidate : SignalCandidate F E
  pub signal : EntrySignal F
  pub family_name : String
  pub requested_risk_percent : F
  pub requested_size : F
  pub risk_amount : F
  pub account_equity : F
  pub entry_price : F
  pub priority_score : F
  pub precision : BrokerSizingPrecision
  pub currencies : List String

-- The settings that the allocator reads; the counts are validated to be positive.
pub record AllocationSettings (F : Type 0) : Type 0 where
  pub max_price_age_ms : F
  pub max_spread_pips : F
  pub runtime_max_open_positions : ℕ
  pub runtime_max_positions_per_strategy : ℕ
  pub runtime_max_open_risk_percent : F
  pub runtime_max_position_notional : F
  pub allocation_default_risk_per_trade_percent : F
  pub allocation_fallback_stop_distance_percent : F
  pub allocation_max_new_positions_per_cycle : ℕ
  pub allocation_max_new_risk_per_cycle_percent : F
  pub allocation_max_risk_per_strategy_percent : F
  pub allocation_max_risk_per_family_percent : F
  pub allocation_max_risk_per_instrument_percent : F
  pub allocation_max_risk_per_currency_percent : F
  pub allocation_max_gross_exposure_percent : F
  pub allocation_under_minimum_round_up_tolerance_percent : F
  pub trade_allocator_signal_stale_after_seconds : F

abbrev pub is_approximate : BrokerSizingPrecision → Bool
is_approximate approximate = true
is_approximate _ = false

-- `isinstance(candidate.signal, EntrySignal)`
abbrev pub is_entry : {F : Type 0} → Signal F → Bool
is_entry (entry s) = true
is_entry _ = false

module _ (fl : Floats) {E : Type 0} where
  open fl use {F, literal}

  -- An `AllocationDecision` with its defaults, not selected and in no cycle yet.
  unfoldable pub unselected : SignalCandidate F E → String → F → AllocationDecision F E
  unselected candidate code requested_risk = record {
    candidate = candidate;
    cycle_id = "unassigned";
    selected = false;
    reason_code = code;
    priority_score = literal "0.0";
    requested_size = literal "0.0";
    normalized_size = literal "0.0";
    requested_risk_percent = requested_risk;
    allocated_risk_percent = literal "0.0";
    risk_amount = literal "0.0";
    account_equity = literal "0.0";
    binding_budget = none;
    degraded = false;
  }

  -- `_reject_candidate`; no caller passes details in degraded mode.
  unfoldable pub reject_candidate : SignalCandidate F E → String → F → F → AllocationDecision F E
  unfolding unselected
  reject_candidate candidate code requested_risk equity =
      let d = unselected candidate code requested_risk in record d { account_equity = equity }

  -- `_reject`
  unfoldable pub reject : CandidatePlan F E → String → Option String → AllocationDecision F E
  unfolding unselected
  reject plan code budget =
      let d = unselected plan.candidate code plan.requested_risk_percent in
      record d {
        priority_score = plan.priority_score;
        requested_size = plan.requested_size;
        account_equity = plan.account_equity;
        binding_budget = budget;
        degraded = is_approximate plan.precision;
      }

  -- The decision for a candidate that is no entry.
  unfoldable pub passthrough : SignalCandidate F E → String → AllocationDecision F E
  unfolding unselected
  passthrough candidate cycle =
      let d = unselected candidate "non_entry_passthrough" (literal "0.0") in
      record d { cycle_id = cycle; selected = true }
