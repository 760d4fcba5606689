-- ===== src/Allocation/Cycle/Opening.antt =====
-- Only the second loop of `allocate` in backend/app/services/capital_allocator_service.py opens
-- positions.
use codex_trading_app.Prelude.{
  ℕ, ◌≤◌, String, ◌≡◌, refl, Bool, false, ◌&&◌, none, List, [], ◌∷◌, ◌++◌, map, count, count-append,
  count-map, count_mono, arith, Attempt, ok, raised,
}
use codex_trading_app.Prelude.Sort.{sorted}
use codex_trading_app.Allocation.Floats.{Floats}
use codex_trading_app.Allocation.Signals.{Signal, entry, exit, absent, SignalCandidate, Brokers}
use codex_trading_app.Allocation.Decision.{
  AllocationDecision, CandidatePlan, AllocationSettings, is_entry, reject, passthrough,
}
use codex_trading_app.Allocation.State.{OpenState, empty_cycle}
use codex_trading_app.Allocation.Scoring.{stale_decision}
use codex_trading_app.Allocation.Ranking.{
  ranks_before, suppress_from, suppress_weaker_duplicates, split_ranked, resolve_group, group_from,
  resolve_groups, resolve_direction_conflicts, outranks,
}
use codex_trading_app.Allocation.Candidates.{prepare_subject}
use codex_trading_app.Allocation.Cycle.{
  consider, plan_candidates, allocate_plans, assign_cycle, decide,
}

module _ (fl : Floats) {E : Type 0} where
  open fl use {F}

  abbrev pub is_selected : AllocationDecision F E → Bool
  is_selected d = d.selected

  -- The decision opens a position: a selected entry.
  abbrev pub opens : AllocationDecision F E → Bool
  opens d = d.selected && is_entry d.candidate.signal

  suppress_from-none :
      (best plans : List (CandidatePlan F E))
      → count is_selected (suppress_from fl best plans).1 ≡ 0
  unfolding suppress_from
  suppress_from-none best [] = refl
  suppress_from-none best (p ∷ ps) =
      ground (arith, suppress_from-none best ps, suppress_from-none (best ++ p ∷ []) ps)

  conflicts-none :
      (plans : List (CandidatePlan F E))
      → count is_selected (map (λ p. reject fl p "direction_conflict" none) plans) ≡ 0
  unfolding reject
  conflicts-none [] = refl
  conflicts-none (p ∷ ps) = conflicts-none ps

  split_ranked-none :
      (plans : List (CandidatePlan F E)) → count is_selected (split_ranked fl plans).1 ≡ 0
  unfolding split_ranked
  split_ranked-none [] = refl
  split_ranked-none (w ∷ rest) = conflicts-none rest

  resolve_group-none :
      (plans : List (CandidatePlan F E)) → count is_selected (resolve_group fl plans).1 ≡ 0
  unfolding resolve_group
  resolve_group-none [] = refl
  resolve_group-none (only ∷ []) = refl
  resolve_group-none (a ∷ b ∷ rest) = split_ranked-none (sorted (outranks fl) (a ∷ b ∷ rest))

  resolve_groups-none :
      (groups : List (String × List (CandidatePlan F E)))
      → count is_selected (resolve_groups fl groups).1 ≡ 0
  unfolding resolve_groups
  resolve_groups-none [] = refl
  resolve_groups-none ((key, entries) ∷ groups) = omega (
    arith,
    count-append is_selected (resolve_group fl entries).1 (resolve_groups fl groups).1,
    resolve_group-none entries,
    resolve_groups-none groups,
  )

  module _ (brokers : Brokers F E) (settings : AllocationSettings F) where
    abbrev opened : Attempt (AllocationDecision F E) (CandidatePlan F E) → Bool
    opened (ok plan) = false
    opened (raised d) = opens d

    consider-unopened :
        (cycle_id : String) (now : ℕ) (book : OpenState F) (c : SignalCandidate F E) (s : Signal F)
        → c.signal ≡ s
        → opened (consider fl brokers settings cycle_id now book c s) ≡ false
    unfolding consider passthrough stale_decision
    consider-unopened cycle_id now book c exit e = ground (arith, e)
    consider-unopened cycle_id now book c absent e = ground (arith, e)
    consider-unopened cycle_id now book c (entry s) e =
        ground (arith, e, (prepare_subject fl brokers settings c s now book).1)

    plan_candidates-unopened :
        (cycle_id : String) (now : ℕ) (book : OpenState F) (cs : List (SignalCandidate F E))
        → count opens (plan_candidates fl brokers settings cycle_id now book cs).0 ≡ 0
    unfolding plan_candidates
    plan_candidates-unopened cycle_id now book [] = refl
    plan_candidates-unopened cycle_id now book (c ∷ cs) = ground (
      arith,
      consider-unopened cycle_id now book c c.signal refl,
      plan_candidates-unopened cycle_id now book cs,
    )

    -- The plans that the second loop decides on, in order.
    unfoldable pub ranked_plans :
        String → ℕ → OpenState F → List (SignalCandidate F E) → List (CandidatePlan F E)
    ranked_plans cycle_id now book candidates =
        let plans = (plan_candidates fl brokers settings cycle_id now book candidates).1 in
        let kept = (suppress_weaker_duplicates fl plans).0 in
        sorted (ranks_before fl) (resolve_direction_conflicts fl kept).0

    -- Of the positions that a cycle opens, as many pass a test of candidates as there are such
    -- selections in the second loop, at most.
    pub opened-le-selected :
        (q : SignalCandidate F E → Bool) (cycle_id : String) (now : ℕ) (book : OpenState F)
        (candidates : List (SignalCandidate F E))
        → count
            (λ d. opens d && q d.candidate)
            (decide fl brokers settings cycle_id now book candidates)
          ≤ count
              (λ d. d.selected && q d.candidate)
              (allocate_plans fl brokers settings cycle_id book
                (empty_cycle fl)
                (ranked_plans cycle_id now book candidates))
    unfolding decide assign_cycle ranked_plans suppress_weaker_duplicates
        resolve_direction_conflicts
    opened-le-selected q cycle_id now book candidates =
        let (decisions, plans) = plan_candidates fl brokers settings cycle_id now book candidates in
        let (kept, duplicates) = suppress_weaker_duplicates fl plans in
        let (shortlist, conflicts) = resolve_direction_conflicts fl kept in
        let ranked = sorted (ranks_before fl) shortlist in
        let allocated = allocate_plans fl brokers settings cycle_id book (empty_cycle fl) ranked in
        let test : AllocationDecision F E → Bool = λ d. opens d && q d.candidate in
        let wide : AllocationDecision F E → Bool = λ d. d.selected && q d.candidate in
        omega (
          arith,
          count-map (assign_cycle fl brokers settings cycle_id) test
              (decisions ++ (duplicates ++ (conflicts ++ allocated))),
          count-append test decisions (duplicates ++ (conflicts ++ allocated)),
          count-append test duplicates (conflicts ++ allocated),
          count-append test conflicts allocated,
          count_mono test opens (λ d h. ground arith) decisions,
          count_mono test is_selected (λ d h. ground arith) duplicates,
          count_mono test is_selected (λ d h. ground arith) conflicts,
          count_mono test wide (λ d h. ground arith) allocated,
          plan_candidates-unopened cycle_id now book candidates,
          suppress_from-none [] (sorted (ranks_before fl) plans),
          resolve_groups-none (group_from fl [] kept),
        )
