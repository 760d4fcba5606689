-- ===== src/Allocation/Ranking.antt =====
-- Which plans a cycle considers, and in which order: `_suppress_weaker_duplicates`,
-- `_resolve_direction_conflicts` and the sort keys of
-- backend/app/services/capital_allocator_service.py.
use codex_trading_app.Prelude.{
  String, str_eq, str_ltb, Bool, ◌&&◌, none, List, [], ◌∷◌, ◌++◌, any, map, if◌then◌else◌,
}
use codex_trading_app.Prelude.Sort.{sorted}
use codex_trading_app.Allocation.Floats.{Floats}
use codex_trading_app.Allocation.Signals.{direction_value}
use codex_trading_app.Allocation.Decision.{AllocationDecision, CandidatePlan, reject}

module _ (fl : Floats) {E : Type 0} where
  open fl use {F, neg, lt, eq}

  -- The key `(-priority_score, strategy_name, instrument)`: the first difference decides.
  unfoldable pub ranks_before : CandidatePlan F E → CandidatePlan F E → Bool
  ranks_before a b =
      if eq (neg a.priority_score) (neg b.priority_score)
      then (if str_eq a.candidate.strategy_name b.candidate.strategy_name
          then str_ltb a.candidate.instrument b.candidate.instrument
          else str_ltb a.candidate.strategy_name b.candidate.strategy_name)
      else lt (neg a.priority_score) (neg b.priority_score)

  -- The key `(-priority_score, strategy_name)`.
  unfoldable pub outranks : CandidatePlan F E → CandidatePlan F E → Bool
  outranks a b =
      if eq (neg a.priority_score) (neg b.priority_score)
      then str_ltb a.candidate.strategy_name b.candidate.strategy_name
      else lt (neg a.priority_score) (neg b.priority_score)

  -- Equality of the keys `(instrument, direction)`.
  unfoldable pub same_key : CandidatePlan F E → CandidatePlan F E → Bool
  same_key a b =
      str_eq a.candidate.instrument b.candidate.instrument
      && str_eq (direction_value a.signal.direction) (direction_value b.signal.direction)

  -- The loop over the sorted plans. `best` is the dictionary's values in the order of insertion;
  -- no entry is ever replaced.
  unfoldable pub suppress_from :
      List (CandidatePlan F E)
      → List (CandidatePlan F E)
      → List (CandidatePlan F E) × List (AllocationDecision F E)
  unfolding same_key reject
  suppress_from best [] = (best, [])
  suppress_from best (plan ∷ plans) =
      let known = any (same_key plan) best in
      let (kept, rejected) = suppress_from (if known then best else best ++ plan ∷ []) plans in
      (kept, if known then reject fl plan "weaker_duplicate" none ∷ rejected else rejected)

  -- `_suppress_weaker_duplicates`: the plans kept, and the decisions that it appends.
  unfoldable pub suppress_weaker_duplicates :
      List (CandidatePlan F E) → List (CandidatePlan F E) × List (AllocationDecision F E)
  unfolding suppress_from ranks_before sorted
  suppress_weaker_duplicates plans = suppress_from [] (sorted ranks_before plans)

  -- `grouped[plan.candidate.instrument].append(plan)`
  unfoldable pub add_to_group :
      CandidatePlan F E
      → List (String × List (CandidatePlan F E))
      → List (String × List (CandidatePlan F E))
  add_to_group plan [] = (plan.candidate.instrument, plan ∷ []) ∷ []
  add_to_group plan ((key, entries) ∷ groups) =
      let rest = add_to_group plan groups in
      if str_eq key plan.candidate.instrument
      then (key, entries ++ plan ∷ []) ∷ groups
      else (key, entries) ∷ rest

  unfoldable pub group_from :
      List (String × List (CandidatePlan F E))
      → List (CandidatePlan F E)
      → List (String × List (CandidatePlan F E))
  unfolding add_to_group
  group_from groups [] = groups
  group_from groups (plan ∷ plans) = group_from (add_to_group plan groups) plans

  -- The winner of a group and the decisions on the others; a group of one is not sorted.
  unfoldable pub split_ranked :
      List (CandidatePlan F E) → List (CandidatePlan F E) × List (AllocationDecision F E)
  unfolding reject
  split_ranked [] = ([], [])
  split_ranked (winner ∷ rest) =
      (winner ∷ [], map (λ p. reject fl p "direction_conflict" none) rest)

  unfoldable pub resolve_group :
      List (CandidatePlan F E) → List (CandidatePlan F E) × List (AllocationDecision F E)
  unfolding split_ranked outranks sorted
  resolve_group [] = split_ranked []
  resolve_group (only ∷ []) = (only ∷ [], [])
  resolve_group (a ∷ b ∷ rest) = split_ranked (sorted outranks (a ∷ b ∷ rest))

  unfoldable pub resolve_groups :
      List (String × List (CandidatePlan F E))
      → List (CandidatePlan F E) × List (AllocationDecision F E)
  unfolding resolve_group
  resolve_groups [] = ([], [])
  resolve_groups ((key, entries) ∷ groups) =
      let (winners, rejected) = resolve_group entries in
      let (later_winners, later_rejected) = resolve_groups groups in
      (winners ++ later_winners, rejected ++ later_rejected)

  -- `_resolve_direction_conflicts`: the plans selected, and the decisions that it appends.
  unfoldable pub resolve_direction_conflicts :
      List (CandidatePlan F E) → List (CandidatePlan F E) × List (AllocationDecision F E)
  unfolding group_from resolve_groups
  resolve_direction_conflicts plans = resolve_groups (group_from [] plans)
