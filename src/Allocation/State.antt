-- ===== src/Allocation/State.antt =====
-- The risk book that a cycle starts from and what it has reserved so far: `_build_open_state` and
-- `_reserve_cycle_state` of backend/app/services/capital_allocator_service.py.
pub mod Counts
use codex_trading_app.Prelude.{
  ℕ, suc, ◌+◌, String, str_eq, Bool, true, false, not, ◌&&◌, ◌||◌, Option, none, some, List, [],
  ◌∷◌, length, any, filter, count, ◌==◌, if◌then◌else◌,
}
use codex_trading_app.Allocation.Floats.{Floats, max, or_float}
use codex_trading_app.Allocation.Signals.{PositionRisk, IntentRisk, Brokers, family_or}
use codex_trading_app.Allocation.Decision.{AllocationDecision, CandidatePlan}

-- A `defaultdict` is the function of its keys.
unfoldable pub bump : String → (String → ℕ) → String → ℕ
bump key counts k = if str_eq k key then suc (counts k) else counts k

-- `open_state`
pub record OpenState (F : Type 0) : Type 0 where
  pub total_risk : F
  pub total_gross_notional : F
  pub strategy_risk : String → F
  pub family_risk : String → F
  pub instrument_risk : String → F
  pub currency_risk : String → F
  pub strategy_positions : String → ℕ
  pub open_positions : ℕ

-- `cycle_state`
pub record CycleState (F : Type 0) : Type 0 where
  pub selected_positions : ℕ
  pub selected_risk : F
  pub selected_gross_notional : F
  pub selected_strategy_positions : String → ℕ
  pub strategy_risk : String → F
  pub family_risk : String → F
  pub instrument_risk : String → F
  pub currency_risk : String → F

module _ (fl : Floats) where
  open fl use {F, literal, add, mul, div, abs, of_ℕ}

  -- `risk[key] += amount`
  unfoldable pub increase : String → F → (String → F) → String → F
  increase key amount risk k = if str_eq k key then add (risk k) amount else risk k

  -- `for currency in currencies: risk[currency] += amount / max(len(currencies), 1)`
  unfoldable pub spread_over : List String → F → (String → F) → String → F
  unfolding increase
  spread_over [] share risk = risk
  spread_over (c ∷ cs) share risk = spread_over cs share (increase c share risk)

  unfoldable pub share_of : F → List String → F
  share_of amount [] = div amount (of_ℕ 1)
  share_of amount (c ∷ cs) = div amount (of_ℕ (length (c ∷ cs)))

  unfoldable pub no_risk : String → F
  no_risk k = literal "0.0"

  abbrev pub no_positions : String → ℕ
  no_positions k = 0

  unfoldable pub empty_book : OpenState F
  unfolding no_risk
  empty_book = record {
    total_risk = literal "0.0";
    total_gross_notional = literal "0.0";
    strategy_risk = no_risk;
    family_risk = no_risk;
    instrument_risk = no_risk;
    currency_risk = no_risk;
    strategy_positions = no_positions;
    open_positions = 0;
  }

  unfoldable pub empty_cycle : CycleState F
  unfolding no_risk
  empty_cycle = record {
    selected_positions = 0;
    selected_risk = literal "0.0";
    selected_gross_notional = literal "0.0";
    selected_strategy_positions = no_positions;
    strategy_risk = no_risk;
    family_risk = no_risk;
    instrument_risk = no_risk;
    currency_risk = no_risk;
  }

module _ (fl : Floats) {E : Type 0} (brokers : Brokers fl.F E) where
  open fl use {F, literal, add, mul, abs}
  open brokers use {currency_buckets}

  -- The body of the loop over the open positions.
  unfoldable pub add_position : PositionRisk F → OpenState F → OpenState F
  unfolding increase spread_over share_of bump or_float
  add_position p book =
      let risk = or_float fl p.risk_percent (literal "0.0") in
      let family = family_or p.family_name p.strategy_name in
      let mark_price = or_float fl p.current_price p.open_price in
      let notional = abs (mul (or_float fl (some mark_price) (literal "0.0")) p.size) in
      let currencies = currency_buckets p.instrument none in
      record book {
        total_risk = add book.total_risk risk;
        total_gross_notional = add book.total_gross_notional notional;
        strategy_risk = increase fl p.strategy_name risk book.strategy_risk;
        family_risk = increase fl family risk book.family_risk;
        instrument_risk = increase fl p.instrument risk book.instrument_risk;
        currency_risk = spread_over fl currencies (share_of fl risk currencies) book.currency_risk;
        strategy_positions = bump p.strategy_name book.strategy_positions;
      }

  unfoldable pub add_positions : List (PositionRisk F) → OpenState F → OpenState F
  unfolding add_position
  add_positions [] book = book
  add_positions (p ∷ ps) book = add_positions ps (add_position p book)

  abbrev pub gathered : Option ℕ → List ℕ → List ℕ
  gathered none ids = ids
  gathered (some i) ids = i ∷ ids

  -- `reserved_intent_ids`, which the loop over the positions gathers.
  unfoldable pub reserved_intent_ids : List (PositionRisk F) → List ℕ
  reserved_intent_ids [] = []
  reserved_intent_ids (p ∷ ps) = gathered p.trade_intent_id (reserved_intent_ids ps)

  -- `id is not None and id in ids`, which guards the loop.
  unfoldable pub is_reserved : List ℕ → Option ℕ → Bool
  is_reserved ids none = false
  is_reserved ids (some i) = any (λ j. j == i) ids

  -- `id is None or id not in ids`, which guards the count.
  unfoldable pub is_unreserved : List ℕ → Option ℕ → Bool
  is_unreserved ids none = true
  is_unreserved ids (some i) = not (any (λ j. j == i) ids)

  -- `id is None`
  abbrev pub is_missing_id : Option ℕ → Bool
  is_missing_id none = true
  is_missing_id (some i) = false

  -- The guard of the count of positions.
  unfoldable pub is_listed : List ℕ → IntentRisk F → Bool
  unfolding is_unreserved
  is_listed ids intent = is_missing_id intent.position_id && is_unreserved ids intent.id

  -- The body of the loop over the reserved intents, where neither `continue` is taken.
  unfoldable pub add_intent : IntentRisk F → OpenState F → OpenState F
  unfolding increase spread_over share_of bump or_float
  add_intent i book =
      let zero_risk = literal "0.0" in
      let risk =
        or_float fl i.allocated_risk_percent (or_float fl i.proposed_risk_percent zero_risk) in
      let size = or_float fl i.allocated_size (or_float fl i.proposed_size zero_risk) in
      let price = or_float fl i.average_fill_price (or_float fl i.observed_price zero_risk) in
      let family = family_or i.family_name i.strategy_name in
      let currencies = currency_buckets i.instrument none in
      record book {
        total_risk = add book.total_risk risk;
        total_gross_notional = add book.total_gross_notional (abs (mul price size));
        strategy_risk = increase fl i.strategy_name risk book.strategy_risk;
        family_risk = increase fl family risk book.family_risk;
        instrument_risk = increase fl i.instrument risk book.instrument_risk;
        currency_risk = spread_over fl currencies (share_of fl risk currencies) book.currency_risk;
        strategy_positions = bump i.strategy_name book.strategy_positions;
      }

  -- The loop over the reserved intents, with its two `continue`s.
  unfoldable pub add_intents : List ℕ → List (IntentRisk F) → OpenState F → OpenState F
  unfolding add_intent is_reserved
  add_intents ids [] book = book
  add_intents ids (i ∷ is) book = add_intents ids is (
      if is_reserved ids i.id
      then book
      else if not (is_missing_id i.position_id)
      then book
      else add_intent i book)

  -- `_build_open_state`
  unfoldable pub build_open_state : List (PositionRisk F) → List (IntentRisk F) → OpenState F
  unfolding add_positions add_intents reserved_intent_ids is_listed empty_book
  build_open_state positions intents =
      let ids = reserved_intent_ids positions in
      let book = add_intents ids intents (add_positions positions (empty_book fl)) in
      record book { open_positions = length positions + count (is_listed ids) intents }

module _ (fl : Floats) {E : Type 0} where
  open fl use {F, add, mul, abs}

  -- `_reserve_cycle_state`
  unfoldable pub reserve_cycle_state :
      CandidatePlan F E → AllocationDecision F E → CycleState F → CycleState F
  unfolding increase spread_over share_of bump
  reserve_cycle_state plan decision cycle =
      let risk = decision.allocated_risk_percent in
      let candidate = plan.candidate in
      record {
        selected_positions = suc cycle.selected_positions;
        selected_risk = add cycle.selected_risk risk;
        selected_gross_notional =
            add cycle.selected_gross_notional (abs (mul decision.normalized_size plan.entry_price));
        selected_strategy_positions =
            bump candidate.strategy_name cycle.selected_strategy_positions;
        strategy_risk = increase fl candidate.strategy_name risk cycle.strategy_risk;
        family_risk = increase fl plan.family_name risk cycle.family_risk;
        instrument_risk = increase fl candidate.instrument risk cycle.instrument_risk;
        currency_risk =
            spread_over fl plan.currencies (share_of fl risk plan.currencies) cycle.currency_risk;
      }
