-- ===== src/Allocation/Sizing.antt =====
-- `_normalize_size` and `_round_up` of backend/app/services/capital_allocator_service.py.
use codex_trading_app.Prelude.{
  String, str_eq, ◌&&◌, Option, none, some, Attempt, ok, raised, if◌then◌else◌,
}
use codex_trading_app.Allocation.Floats.{Floats, max}
use codex_trading_app.Allocation.Signals.{BrokerSizeNormalization, Brokers}
use codex_trading_app.Allocation.Decision.{CandidatePlan, AllocationSettings}

-- What an accepted size comes to.
pub record NormalizedSize (F : Type 0) : Type 0 where
  pub normalized_size : F
  pub allocated_risk_percent : F
  pub allocated_risk_amount : F

module _ (fl : Floats) {E : Type 0} (brokers : Brokers fl.F E)
    (settings : AllocationSettings fl.F) where
  open fl use {F, literal, add, sub, mul, div, abs, lt, le, round, floor}
  open brokers use {normalize_order_size}

  -- `_round_up`
  round_up : F → F → F
  round_up value step =
      let rounded_down = mul (floor (div value step)) step in
      if lt (abs (sub rounded_down value)) (literal "1e-9")
      then rounded_down
      else add rounded_down step

  -- The minimum deal size, on the broker's grid.
  round_up_size : F → Option F → F
  unfolding round_up max
  round_up_size minimum none = minimum
  round_up_size minimum (some step) =
      if lt (literal "0") step then max fl minimum (round_up minimum step) else minimum

  -- Risk and amount in proportion to the size.
  sized : F → F → F → F → NormalizedSize F
  unfolding max
  sized size requested_size risk_percent risk_amount =
      let ratio = div size (max fl requested_size (literal "1e-9")) in
      record {
        normalized_size = round size 8;
        allocated_risk_percent = round (mul risk_percent ratio) 6;
        allocated_risk_amount = round (mul risk_amount ratio) 6;
      }

  -- A size below the minimum is raised to it where the risk stays within the tolerance and the
  -- hard limit.
  raise_to_minimum : BrokerSizeNormalization F → F → F → F → F → Attempt String (NormalizedSize F)
  unfolding round_up_size sized max
  raise_to_minimum n requested_size risk_percent risk_amount hard_limit =
      elim (if str_eq n.reason_code "below_min_size" then n.min_deal_size else none) [
        | none ↦ raised n.reason_code
        | some minimum ↦
            let size = round_up_size minimum n.size_step in
            let risk = mul risk_percent (div size (max fl requested_size (literal "1e-9"))) in
            let tolerance = add (literal "1.0") (
              div settings.allocation_under_minimum_round_up_tolerance_percent (literal "100.0")) in
            if le risk (mul risk_percent tolerance) && le risk hard_limit
            then ok (sized size requested_size risk_percent risk_amount)
            else raised n.reason_code
      ]

  -- `_normalize_size`: the accepted size, or the reason code of the refusal.
  unfoldable pub normalize_size :
      CandidatePlan F E → F → F → F → F → Attempt String (NormalizedSize F)
  unfolding sized raise_to_minimum
  normalize_size plan requested_size risk_percent risk_amount hard_limit =
      let n = normalize_order_size plan.candidate.engine plan.candidate.instrument requested_size in
      if n.accepted
      then ok (sized n.normalized_size requested_size risk_percent risk_amount)
      else raise_to_minimum n requested_size risk_percent risk_amount hard_limit
