-- ===== src/Allocation/Cycle/Exclusive.antt =====
-- A cycle of backend/app/services/capital_allocator_service.py opens at most one position on an
-- instrument.
use codex_trading_app.Prelude.{
  ℕ, ◌≤◌, String, str_eq, eq_iff, ◌≡◌, refl, Bool, false, ◌&&◌, List, [], ◌∷◌, ◌++◌, count,
  count-append, count_mono, All, arith, Bool-cases, inl, inr,
}
use codex_trading_app.Prelude.Sort.{sorted, sorted-All, count-sorted}
use codex_trading_app.Allocation.Floats.{Floats}
use codex_trading_app.Allocation.Signals.{SignalCandidate, PositionRisk, IntentRisk, Brokers}
use codex_trading_app.Allocation.Decision.{CandidatePlan, AllocationSettings}
use codex_trading_app.Allocation.State.{OpenState, empty_cycle, build_open_state}
use codex_trading_app.Allocation.Ranking.{
  outranks, add_to_group, group_from, split_ranked, resolve_group, resolve_groups,
  resolve_direction_conflicts, ranks_before, suppress_weaker_duplicates,
}
use codex_trading_app.Allocation.Cycle.{plan_candidates, allocate_plans, decide, allocate}
use codex_trading_app.Allocation.Cycle.Accounting.{allocate_plans-count}
use codex_trading_app.Allocation.Cycle.Opening.{opens, ranked_plans, opened-le-selected}

abbrev Groups : Type 0 → Type 0 → Type 0
Groups F E = List (String × List (CandidatePlan F E))

-- How many groups have a key.
abbrev keys {ℓ} : {A : Type ℓ} → String → List (String × A) → ℕ
keys i groups = count (λ g. str_eq g.0 i) groups

module _ (fl : Floats) {E : Type 0} where
  open fl use {F}

  abbrev pub on_instrument : String → CandidatePlan F E → Bool
  on_instrument i p = str_eq p.candidate.instrument i

  -- Every plan stands in the group of its instrument.
  abbrev IsKeyed : String × List (CandidatePlan F E) → Type 0
  IsKeyed (key, entries) = All (λ p. p.candidate.instrument ≡ key) entries

  All-append :
      (key : String) (xs ys : List (CandidatePlan F E))
      → IsKeyed (key, xs)
      → IsKeyed (key, ys)
      → IsKeyed (key, xs ++ ys)
  All-append key [] ys a b = b
  All-append key (x ∷ xs) ys a b = (a.0, All-append key xs ys a.1 b)

  add_to_group-IsKeyed :
      (p : CandidatePlan F E) (groups : Groups F E)
      → All IsKeyed groups
      → All IsKeyed (add_to_group fl p groups)
  unfolding add_to_group
  add_to_group-IsKeyed p [] h = ((refl, tt), tt)
  add_to_group-IsKeyed p ((key, entries) ∷ groups) h =
      elim (Bool-cases (str_eq key p.candidate.instrument)) [
        | inl e ↦ rw e (
          All-append key entries (p ∷ []) h.0
              (ground (arith, e, eq_iff key p.candidate.instrument), tt),
          h.1,
        )
        | inr e ↦ rw e (h.0, add_to_group-IsKeyed p groups h.1)
      ]

  keys-add_to_group_ne :
      (i : String) (p : CandidatePlan F E) (groups : Groups F E)
      → on_instrument i p ≡ false
      → keys i (add_to_group fl p groups) ≡ keys i groups
  unfolding add_to_group
  keys-add_to_group_ne i p [] h = ground arith
  keys-add_to_group_ne i p ((key, entries) ∷ groups) h =
      ground (arith, keys-add_to_group_ne i p groups h)

  -- A plan joins the group of its instrument, and starts one only where there is none.
  keys-add_to_group :
      (i : String) (p : CandidatePlan F E) (groups : Groups F E)
      → keys i groups ≤ 1
      → keys i (add_to_group fl p groups) ≤ 1
  unfolding add_to_group
  keys-add_to_group i p [] h = ground arith
  keys-add_to_group i p ((key, entries) ∷ groups) h = ground (
    arith,
    h,
    keys-add_to_group i p groups,
    keys-add_to_group_ne i p groups,
    eq_iff key i,
    eq_iff key p.candidate.instrument,
    eq_iff p.candidate.instrument i,
  )

  group_from-IsKeyed :
      (groups : Groups F E) (plans : List (CandidatePlan F E))
      → All IsKeyed groups
      → All IsKeyed (group_from fl groups plans)
  unfolding group_from
  group_from-IsKeyed groups [] h = h
  group_from-IsKeyed groups (p ∷ ps) h =
      group_from-IsKeyed (add_to_group fl p groups) ps (add_to_group-IsKeyed p groups h)

  keys-group_from :
      (i : String) (groups : Groups F E) (plans : List (CandidatePlan F E))
      → keys i groups ≤ 1
      → keys i (group_from fl groups plans) ≤ 1
  unfolding group_from
  keys-group_from i groups [] h = h
  keys-group_from i groups (p ∷ ps) h =
      keys-group_from i (add_to_group fl p groups) ps (keys-add_to_group i p groups h)

  split_ranked-on :
      (i key : String) (plans : List (CandidatePlan F E))
      → IsKeyed (key, plans)
      → count (on_instrument i) (split_ranked fl plans).0 ≤ count (λ k. str_eq k i) (key ∷ [])
  unfolding split_ranked
  split_ranked-on i key [] h = ground arith
  split_ranked-on i key (w ∷ rest) h = rw h.0 (omega arith)

  resolve_group-on :
      (i key : String) (plans : List (CandidatePlan F E))
      → IsKeyed (key, plans)
      → count (on_instrument i) (resolve_group fl plans).0 ≤ count (λ k. str_eq k i) (key ∷ [])
  unfolding resolve_group
  resolve_group-on i key [] h = split_ranked-on i key [] h
  resolve_group-on i key (only ∷ []) h = rw h.0 (omega arith)
  resolve_group-on i key (a ∷ b ∷ rest) h =
      split_ranked-on i key (sorted (outranks fl) (a ∷ b ∷ rest))
        (sorted-All (outranks fl) (λ p. p.candidate.instrument ≡ key) (a ∷ b ∷ rest) h)

  resolve_groups-on :
      (i : String) (groups : Groups F E)
      → All IsKeyed groups
      → count (on_instrument i) (resolve_groups fl groups).0 ≤ keys i groups
  unfolding resolve_groups
  resolve_groups-on i [] h = omega arith
  resolve_groups-on i ((key, entries) ∷ groups) h =
      let (winners, rejected) = resolve_group fl entries in
      let (later_winners, later_rejected) = resolve_groups fl groups in
      ground (
        arith,
        resolve_group-on i key entries h.0,
        resolve_groups-on i groups h.1,
        count-append (on_instrument i) winners later_winners,
      )

  -- The shortlist has at most one plan for an instrument.
  pub resolve_exclusive :
      (i : String) (plans : List (CandidatePlan F E))
      → count (on_instrument i) (resolve_direction_conflicts fl plans).0 ≤ 1
  unfolding resolve_direction_conflicts
  resolve_exclusive i plans = omega (
    arith,
    resolve_groups-on i (group_from fl [] plans) (group_from-IsKeyed [] plans tt),
    keys-group_from i [] plans (omega arith),
  )

module _ (fl : Floats) {E : Type 0} (brokers : Brokers fl.F E)
    (settings : AllocationSettings fl.F) where
  open fl use {F}

  decide_exclusive :
      (i cycle_id : String) (now : ℕ) (book : OpenState F) (candidates : List (SignalCandidate F E))
      → count
          (λ d. opens fl d && str_eq d.candidate.instrument i)
          (decide fl brokers settings cycle_id now book candidates)
        ≤ 1
  unfolding ranked_plans
  decide_exclusive i cycle_id now book candidates =
      let on : SignalCandidate F E → Bool = λ c. str_eq c.instrument i in
      let plans = (plan_candidates fl brokers settings cycle_id now book candidates).1 in
      let kept = (suppress_weaker_duplicates fl plans).0 in
      let shortlist = (resolve_direction_conflicts fl kept).0 in
      let ranked = ranked_plans fl brokers settings cycle_id now book candidates in
      let chosen = allocate_plans fl brokers settings cycle_id book (empty_cycle fl) ranked in
      omega (
        arith,
        opened-le-selected fl brokers settings on cycle_id now book candidates,
        count_mono (λ d. d.selected && on d.candidate) (λ d. on d.candidate) (λ d h. ground arith)
            chosen,
        allocate_plans-count fl on brokers settings ranked cycle_id book (empty_cycle fl),
        count-sorted (ranks_before fl) (on_instrument fl i) shortlist,
        resolve_exclusive fl i kept,
      )

  -- Whatever the candidates, a cycle opens at most one position on an instrument: of two strategies,
  -- or of a purchase and a sale, at most one gets capital.
  pub cycle_exclusive :
      (instrument cycle_id : String) (now : ℕ) (positions : List (PositionRisk F))
      (intents : List (IntentRisk F)) (candidates : List (SignalCandidate F E))
      → count
          (λ d. opens fl d && str_eq d.candidate.instrument instrument)
          (allocate fl brokers settings cycle_id now positions intents candidates)
        ≤ 1
  unfolding allocate
  cycle_exclusive i cycle_id now positions intents [] = omega arith
  cycle_exclusive i cycle_id now positions intents (c ∷ cs) =
      decide_exclusive i cycle_id now (build_open_state fl brokers positions intents) (c ∷ cs)
