-- ===== src/Coverage/Decisions.antt =====
-- What a run of backend/app/services/coverage_allocator_service.py makes of the rows of its table.
use codex_trading_app.Prelude.{
  ℕ, ◌+◌, ◌≡◌, refl, sym, ◌∙◌, Bool, true, false, Option, some, List, [], ◌∷◌, All, count, filter,
  length, arith, Bool-cases, inl, inr, if◌then◌else◌,
}
use mathlib.Core.Path.{subst}
use codex_trading_app.Prelude.Rows.{find_first, count-replace_first_eq, find_first-replace_first}
use codex_trading_app.Prelude.Sort.{sorted}
use codex_trading_app.Allocation.Floats.{Floats}
use codex_trading_app.Coverage.Records.{
  PromotionRequestStatus, pending, accepted, rejected, expired, PromotionRequest, CoverageSettings,
}
use codex_trading_app.Coverage.Allocator.{
  CoverageRun, CoverageTables, is_pending, is_accepted, has_request_id, sorts_before, settled,
  settle_request, reject_request, expire_request, skip_request, accept_request, decide_request,
  decide_requests, started, allocate_pending_promotions, tables_after,
}
use codex_trading_app.Coverage.Budget.{
  counted, length-sorted, length-filter, decide_requests-counters,
}
use codex_trading_app.Coverage.Rows.{
  IsKeyed, Waits, Apart, same_request_id-sym, same_request_id-eq, queue_lem,
}

abbrev pub is_rejected : PromotionRequestStatus → Bool
is_rejected rejected = true
is_rejected _ = false

abbrev pub is_expired : PromotionRequestStatus → Bool
is_expired expired = true
is_expired _ = false

waiting_status : (s : PromotionRequestStatus) → is_pending s ≡ true → s ≡ pending
waiting_status pending h = refl
waiting_status accepted h = cc
waiting_status rejected h = cc
waiting_status expired h = cc

-- The rows of a status.
abbrev pub rows_with :
    {F : Type 0} → (PromotionRequestStatus → Bool) → List (PromotionRequest F) → ℕ
rows_with test rows = count (λ r. test r.status) rows

module _ (fl : Floats) (settings : CoverageSettings fl.F) where
  open fl use {F}

  settle_request-rows_with :
      (test : PromotionRequestStatus → Bool) (now : ℕ) (s : PromotionRequestStatus)
      (r : PromotionRequest F) (rows : List (PromotionRequest F))
      → Waits rows r
      → rows_with test (settle_request fl settings now s r rows) + (if test pending then 1 else 0)
        ≡ rows_with test rows + (if test s then 1 else 0)
  unfolding settle_request settled
  settle_request-rows_with test now s r rows (found, waits) =
      let status = waiting_status r.status waits in
      let moved =
        count-replace_first_eq (has_request_id r.id) (λ o. test o.status)
          (settled fl settings now s r) r rows found in
      subst
        (λ x.
          rows_with test (settle_request fl settings now s r rows) + (if test x then 1 else 0)
          ≡ rows_with test rows + (if test s then 1 else 0))
        status moved

  -- How a decision moves a request from the pending rows to those of its outcome.
  abbrev Tallied : CoverageRun F → ℕ → CoverageRun F → Type 0
  Tallied run n next =
      (rows_with is_pending next.requests + n ≡ rows_with is_pending run.requests)
      × (rows_with is_accepted next.requests + (run.accepted + run.skipped)
          ≡ rows_with is_accepted run.requests + (next.accepted + next.skipped))
      × (rows_with is_rejected next.requests + run.rejected
          ≡ rows_with is_rejected run.requests + next.rejected)
      × (rows_with is_expired next.requests + run.expired
          ≡ rows_with is_expired run.requests + next.expired)

  decide_request-Tallied :
      (now : ℕ) (r : PromotionRequest F) (run : CoverageRun F)
      → Waits run.requests r
      → Tallied run 1 (decide_request fl settings now r run)
  unfolding decide_request reject_request expire_request skip_request accept_request
  decide_request-Tallied now r run waits = ground (
    arith,
    settle_request-rows_with is_pending now accepted r run.requests waits,
    settle_request-rows_with is_pending now rejected r run.requests waits,
    settle_request-rows_with is_pending now expired r run.requests waits,
    settle_request-rows_with is_accepted now accepted r run.requests waits,
    settle_request-rows_with is_accepted now rejected r run.requests waits,
    settle_request-rows_with is_accepted now expired r run.requests waits,
    settle_request-rows_with is_rejected now accepted r run.requests waits,
    settle_request-rows_with is_rejected now rejected r run.requests waits,
    settle_request-rows_with is_rejected now expired r run.requests waits,
    settle_request-rows_with is_expired now accepted r run.requests waits,
    settle_request-rows_with is_expired now rejected r run.requests waits,
    settle_request-rows_with is_expired now expired r run.requests waits,
  )

  settle_request-find_first :
      (now : ℕ) (s : PromotionRequestStatus) (id : Option ℕ) (r : PromotionRequest F)
      (rows : List (PromotionRequest F))
      → Waits rows r
      → has_request_id id r ≡ false
      → find_first (has_request_id id) (settle_request fl settings now s r rows)
        ≡ find_first (has_request_id id) rows
  unfolding settle_request settled
  settle_request-find_first now s id r rows (found, waits) other =
      find_first-replace_first (has_request_id r.id) (has_request_id id)
        (settled fl settings now s r) r rows found other other

  -- The rows of other identifiers stay.
  decide_request-find_first :
      (now : ℕ) (id : Option ℕ) (r : PromotionRequest F) (run : CoverageRun F)
      → Waits run.requests r
      → has_request_id id r ≡ false
      → find_first (has_request_id id) (decide_request fl settings now r run).requests
        ≡ find_first (has_request_id id) run.requests
  unfolding decide_request reject_request expire_request skip_request accept_request
  decide_request-find_first now id r run waits other = ground (
    arith,
    settle_request-find_first now accepted id r run.requests waits other,
    settle_request-find_first now rejected id r run.requests waits other,
    settle_request-find_first now expired id r run.requests waits other,
  )

  still_wait :
      (now : ℕ) (r : PromotionRequest F) (run : CoverageRun F) (rs : List (PromotionRequest F))
      → Waits run.requests r
      → All (λ o. has_request_id r.id o ≡ false) rs
      → All (Waits run.requests) rs
      → All (Waits (decide_request fl settings now r run).requests) rs
  still_wait now r run [] here apart waits = tt
  still_wait now r run (o ∷ rs) here (other, apart) ((found, waits), rest) = (
    (
      decide_request-find_first now o.id r run here (same_request_id-sym r.id o.id ∙ other) ∙ found,
      waits,
    ),
    still_wait now r run rs here apart rest,
  )

  decide_requests-Tallied :
      (now : ℕ) (rs : List (PromotionRequest F)) (run : CoverageRun F)
      → All (Waits run.requests) rs
      → Apart rs
      → Tallied run (length rs) (decide_requests fl settings now rs run)
  unfolding decide_requests
  decide_requests-Tallied now [] run waits apart = (omega arith, refl, refl, refl)
  decide_requests-Tallied now (r ∷ rs) run (here, waits) (others, apart) =
      let next = decide_request fl settings now r run in
      let (p, a, r', e) = decide_request-Tallied now r run here in
      let (p', a', r'', e') =
        decide_requests-Tallied now rs next (still_wait now r run rs here others waits) apart in
      (omega (arith, p, p'), omega (arith, a, a'), omega (arith, r', r''), omega (arith, e, e'))

  one_row :
      (id : Option ℕ) (row o : PromotionRequest F) (rows : List (PromotionRequest F))
      → find_first (has_request_id id) rows ≡ some row
      → find_first (has_request_id id) rows ≡ some o
      → is_pending row.status ≡ false
      → is_pending o.status ≡ true
      → ⊥
  one_row id row o rows found there done open_end =
      let both : some row ≡ some o = sym found ∙ there in
      let same : row ≡ o = cc in
      let clash : is_pending o.status ≡ false =
        subst (λ x. is_pending x.status ≡ false) same done in
      cc

  -- A row that does not wait, under an identifier, is none of the requests that do.
  settled_apart :
      (id : Option ℕ) (row : PromotionRequest F) (rows rs : List (PromotionRequest F))
      → find_first (has_request_id id) rows ≡ some row
      → is_pending row.status ≡ false
      → All (Waits rows) rs
      → All (λ o. has_request_id id o ≡ false) rs
  settled_apart id row rows [] found done waits = tt
  settled_apart id row rows (o ∷ rs) found done ((here, open_end), waits) =
      elim (Bool-cases (has_request_id id o)) [
        | inr other ↦ (other, settled_apart id row rows rs found done waits)
        | inl same ↦
            let there =
              subst (λ k. find_first (has_request_id k) rows ≡ some o)
                (same_request_id-eq o.id id same) here in
            absurd (one_row id row o rows found there done open_end)
      ]

  decide_requests-find_first :
      (now : ℕ) (id : Option ℕ) (rs : List (PromotionRequest F)) (run : CoverageRun F)
      → All (Waits run.requests) rs
      → Apart rs
      → All (λ o. has_request_id id o ≡ false) rs
      → find_first (has_request_id id) (decide_requests fl settings now rs run).requests
        ≡ find_first (has_request_id id) run.requests
  unfolding decide_requests
  decide_requests-find_first now id [] run waits apart other = refl
  decide_requests-find_first now id (r ∷ rs) run (here, waits) (others, apart) (first, other) =
      decide_requests-find_first now id rs (decide_request fl settings now r run)
        (still_wait now r run rs here others waits) apart other
      ∙ decide_request-find_first now id r run here first

  -- Where no two rows of the table have one identifier, a run decides every pending request: the
  -- four counts add up to the pending rows, and none is pending afterwards. The accepted rows are more
  -- by the requests that the run counts as accepted and as skipped, the rejected and the expired rows
  -- by those that it counts as such, and a row that was not pending is as it was.
  pub every_request_decided :
      (now : ℕ) (tables : CoverageTables F)
      → IsKeyed tables.requests
      → let run = allocate_pending_promotions fl settings now tables in
        let after = (tables_after fl settings now tables).requests in
        (counted fl settings run ≡ rows_with is_pending tables.requests)
        × (rows_with is_pending after ≡ 0)
        × (rows_with is_accepted after
            ≡ rows_with is_accepted tables.requests + (run.accepted + run.skipped))
        × (rows_with is_rejected after ≡ rows_with is_rejected tables.requests + run.rejected)
        × (rows_with is_expired after ≡ rows_with is_expired tables.requests + run.expired)
        × ((row : PromotionRequest F)
            → find_first (has_request_id row.id) tables.requests ≡ some row
            → is_pending row.status ≡ false
            → find_first (has_request_id row.id) after ≡ some row)
  unfolding allocate_pending_promotions tables_after started
  every_request_decided now tables keyed =
      let all_pending = filter (λ (r : PromotionRequest F). is_pending r.status) tables.requests in
      let queue = sorted (sorts_before fl settings) all_pending in
      let run = started fl settings now tables in
      let (waits, apart) = queue_lem (sorts_before fl settings) tables.requests keyed in
      let (p, a, r', e) = decide_requests-Tallied now queue run waits apart in
      (
        omega (
          arith,
          (decide_requests-counters fl settings now queue run).0,
          length-sorted (sorts_before fl settings) all_pending,
          length-filter (λ (r : PromotionRequest F). is_pending r.status) tables.requests,
        ),
        omega (
          arith,
          p,
          length-sorted (sorts_before fl settings) all_pending,
          length-filter (λ (r : PromotionRequest F). is_pending r.status) tables.requests,
        ),
        omega (arith, a),
        omega (arith, r'),
        omega (arith, e),
        λ row found done.
            decide_requests-find_first now row.id queue run waits apart
              (settled_apart row.id row tables.requests queue found done waits)
            ∙ found,
      )
