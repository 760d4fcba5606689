-- ===== src/Coverage/Rows.antt =====
-- The pending requests that a run of backend/app/services/coverage_allocator_service.py goes through
-- are rows of its table, each of its own.
use codex_trading_app.Prelude.{
  ℕ, ◌≤◌, ◌≡◌, refl, ap, Bool, true, false, Option, none, some, List, [], ◌∷◌, All, count, filter,
  arith, Bool-cases, inl, inr,
}
use codex_trading_app.Prelude.Rows.{find_first}
use codex_trading_app.Prelude.Sort.{sorted, sorted-All, count-sorted}
use codex_trading_app.Coverage.Records.{PromotionRequest}
use codex_trading_app.Coverage.Allocator.{is_pending, same_request_id, has_request_id}

same_request_id_refl : (a : Option ℕ) → same_request_id a a ≡ true
same_request_id_refl none = refl
same_request_id_refl (some n) = ground arith

pub same_request_id-sym : (a b : Option ℕ) → same_request_id a b ≡ same_request_id b a
same_request_id-sym none none = refl
same_request_id-sym none (some b) = refl
same_request_id-sym (some a) none = refl
same_request_id-sym (some a) (some b) = ground arith

pub same_request_id-eq : (a b : Option ℕ) → same_request_id a b ≡ true → a ≡ b
same_request_id-eq none none h = refl
same_request_id-eq none (some b) h = cc
same_request_id-eq (some a) none h = cc
same_request_id-eq (some a) (some b) h = ap some (ground (arith, h))

module _ {F : Type 0} where
  -- No two rows have one identifier.
  abbrev pub IsKeyed : List (PromotionRequest F) → Type 0
  IsKeyed rows = (id : Option ℕ) → count (has_request_id id) rows ≤ 1

  -- A request is the row of its identifier, and pending.
  abbrev pub Waits : List (PromotionRequest F) → PromotionRequest F → Type 0
  Waits rows r = (find_first (has_request_id r.id) rows ≡ some r) × (is_pending r.status ≡ true)

  -- Each request has an identifier that no later one has.
  abbrev pub Apart : List (PromotionRequest F) → Type 0
  Apart [] = Unit
  Apart (r ∷ rs) = All (λ o. has_request_id r.id o ≡ false) rs × Apart rs

  uncounted-All :
      (id : Option ℕ) (rs : List (PromotionRequest F))
      → count (has_request_id id) rs ≤ 0
      → All (λ o. has_request_id id o ≡ false) rs
  uncounted-All id [] h = tt
  uncounted-All id (r ∷ rs) h = elim (Bool-cases (has_request_id id r)) [
    | inl same ↦ absurd (ground (arith, h, same))
    | inr other ↦ (other, uncounted-All id rs (ground (arith, h, other)))
  ]

  others_of :
      (r : PromotionRequest F) (rs : List (PromotionRequest F))
      → IsKeyed (r ∷ rs)
      → All (λ o. has_request_id r.id o ≡ false) rs
  others_of r rs keyed =
      uncounted-All r.id rs (ground (arith, keyed r.id, same_request_id_refl r.id))

  tail-IsKeyed :
      (r : PromotionRequest F) (rs : List (PromotionRequest F)) → IsKeyed (r ∷ rs) → IsKeyed rs
  tail-IsKeyed r rs keyed id = ground (arith, keyed id)

  keyed-Apart : (rs : List (PromotionRequest F)) → IsKeyed rs → Apart rs
  keyed-Apart [] keyed = tt
  keyed-Apart (r ∷ rs) keyed = (others_of r rs keyed, keyed-Apart rs (tail-IsKeyed r rs keyed))

  -- A row in front of others, which it is not.
  behind :
      (x : PromotionRequest F) (rows rs : List (PromotionRequest F))
      → All (λ o. has_request_id x.id o ≡ false) rs
      → All (λ r. find_first (has_request_id r.id) rows ≡ some r) rs
      → All (λ r. find_first (has_request_id r.id) (x ∷ rows) ≡ some r) rs
  unfolding find_first
  behind x rows [] apart found = tt
  behind x rows (r ∷ rs) (other, apart) (here, found) =
      (ground (arith, other, here, same_request_id-sym r.id x.id), behind x rows rs apart found)

  found_All :
      (rows : List (PromotionRequest F))
      → IsKeyed rows
      → All (λ r. find_first (has_request_id r.id) rows ≡ some r) rows
  unfolding find_first
  found_All [] keyed = tt
  found_All (r ∷ rs) keyed = (
    rw (same_request_id_refl r.id) refl,
    behind r rs rs (others_of r rs keyed) (found_All rs (tail-IsKeyed r rs keyed)),
  )

  pending-Waits :
      (rows rs : List (PromotionRequest F))
      → All (λ r. find_first (has_request_id r.id) rows ≡ some r) rs
      → All (Waits rows) (filter (λ r. is_pending r.status) rs)
  pending-Waits rows [] found = tt
  pending-Waits rows (r ∷ rs) (here, found) = elim (Bool-cases (is_pending r.status)) [
    | inl waits ↦ rw waits ((here, waits), pending-Waits rows rs found)
    | inr settled ↦ rw settled (pending-Waits rows rs found)
  ]

  count-filter-le :
      (p q : PromotionRequest F → Bool) (rs : List (PromotionRequest F))
      → count q (filter p rs) ≤ count q rs
  count-filter-le p q [] = omega arith
  count-filter-le p q (r ∷ rs) = ground (arith, count-filter-le p q rs)

  -- The requests of a run, in whatever order.
  pub queue_lem :
      (less : PromotionRequest F → PromotionRequest F → Bool) (rows : List (PromotionRequest F))
      → IsKeyed rows
      → let queue = sorted less (filter (λ r. is_pending r.status) rows) in
        All (Waits rows) queue × Apart queue
  queue_lem less rows keyed =
      let pending = filter (λ (r : PromotionRequest F). is_pending r.status) rows in
      (
        sorted-All less (Waits rows) pending (pending-Waits rows rows (found_All rows keyed)),
        keyed-Apart (sorted less pending) (λ id. omega (
          arith,
          keyed id,
          count-sorted less (has_request_id id) pending,
          count-filter-le (λ r. is_pending r.status) (has_request_id id) rows,
        )),
      )
