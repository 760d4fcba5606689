-- ===== src/Alerts/Lookup.antt =====
-- What a key finds in the table of alerts of backend/app/services/trade_service.py, after a row is
-- written and in a listing.
use codex_trading_app.Prelude.{
  ℕ, zero, suc, ◌≤◌, String, str_eq, eq_iff, ◌≡◌, refl, sym, ap, ◌∙◌, Bool, true, false, not, ◌&&◌,
  Option, none, some, List, [], ◌∷◌, ◌++◌, length, any, filter, count, arith, if◌then◌else◌, ltb,
}
use codex_trading_app.Prelude.Rows.{find_first, replace_first}
use codex_trading_app.Prelude.Sort.{sorted, count-sorted}
use codex_trading_app.Alerts.Record.{AllocationAlert}
use codex_trading_app.Alerts.Table.{
  AlertTable, limited, has_key, find_alert, listed_before, list_allocation_alerts,
}

pub any-eq-ltb : {A : Type 0} (p : A → Bool) (xs : List A) → any p xs ≡ ltb 0 (count p xs)
any-eq-ltb p [] = refl
any-eq-ltb p (x ∷ xs) = ground (arith, any-eq-ltb p xs)

count-true : {A : Type 0} (xs : List A) → count (λ x. true) xs ≡ length xs
count-true [] = refl
count-true (x ∷ xs) = omega (arith, count-true xs)

-- A limit that the rows do not exceed leaves them all.
limited_whole :
    {Row : Type 0} (rows : List Row) (most : ℕ) → length rows ≤ most → limited rows most ≡ rows
unfolding limited
limited_whole [] most small = refl
limited_whole (row ∷ later) zero small = absurd (omega (arith, small))
limited_whole (row ∷ later) (suc most) small =
    rw (limited_whole later most (omega (arith, small))) refl

length-filter : {A : Type 0} (p : A → Bool) (xs : List A) → length (filter p xs) ≤ length xs
length-filter p [] = omega arith
length-filter p (x ∷ xs) = ground (arith, length-filter p xs)

pub any-filter_all :
    {A : Type 0} (p : A → Bool) (xs : List A) → any p (filter (λ x. true) xs) ≡ any p xs
any-filter_all p [] = refl
any-filter_all p (x ∷ xs) = ground (arith, any-filter_all p xs)

-- Whether there is a row and it passes a test.
abbrev pub passes : {A : Type 0} → (A → Bool) → Option A → Bool
passes t none = false
passes t (some a) = t a

module _ {F : Type 0} where
  -- A listing whose limit is not reached has a row that passes a test just when the table has one in
  -- the states that are asked for.
  pub any-list_allocation_alerts :
      (p : AllocationAlert F → Bool) (limit : ℕ) (in_states : String → Bool) (table : AlertTable F)
      → length table.rows ≤ limit
      → any p (list_allocation_alerts limit in_states table)
        ≡ any p (filter (λ a. in_states a.state) table.rows)
  unfolding list_allocation_alerts
  any-list_allocation_alerts p limit in_states table h =
      let chosen = filter (λ a. in_states a.state) table.rows in
      let listed = sorted listed_before chosen in
      let fits : length listed ≤ limit = omega (
        arith,
        count-true listed,
        count-true chosen,
        count-sorted listed_before (λ a. true) chosen,
        length-filter (λ a. in_states a.state) table.rows,
      ) in
      rw (limited_whole listed limit fits) (
        any-eq-ltb p listed
        ∙ ap (ltb 0) (count-sorted listed_before p chosen)
        ∙ sym (any-eq-ltb p chosen))

  pub any-has_key :
      (k : String) (rows : List (AllocationAlert F))
      → any (has_key k) rows ≡ passes (λ a. true) (find_alert k rows)
  unfolding find_first
  any-has_key k [] = refl
  any-has_key k (r ∷ rs) = ground (arith, any-has_key k rs)

  pub key_of_found :
      (k : String) (a : AllocationAlert F) (rows : List (AllocationAlert F))
      → find_alert k rows ≡ some a
      → a.alert_key ≡ k
  unfolding find_first
  key_of_found k a [] h = ground (arith, h)
  key_of_found k a (r ∷ rs) h = ground (arith, h, eq_iff r.alert_key k, key_of_found k a rs)

  -- A row that is found among the rows that a test selects.
  pub any-filter_found :
      (k : String) (t : AllocationAlert F → Bool) (rows : List (AllocationAlert F))
      → passes t (find_alert k rows) ≡ true
      → any (has_key k) (filter t rows) ≡ true
  unfolding find_first
  any-filter_found k t [] h = ground (arith, h)
  any-filter_found k t (r ∷ rs) h = ground (arith, h, any-filter_found k t rs)

  module _ (t : AllocationAlert F → Bool) (k j : String) (y : AllocationAlert F) where
    -- The rows after an UPDATE, of a key that is stored.
    pub passes-replace :
        (rows : List (AllocationAlert F))
        → y.alert_key ≡ j
        → any (has_key j) rows ≡ true
        → passes t (find_alert k (replace_first (has_key j) y rows))
          ≡ (if str_eq j k then t y else passes t (find_alert k rows))
    unfolding find_first replace_first
    passes-replace [] named h = ground (arith, h)
    passes-replace (r ∷ rs) named h = ground (
      arith,
      named,
      h,
      eq_iff r.alert_key j,
      eq_iff r.alert_key k,
      eq_iff y.alert_key k,
      eq_iff j k,
      passes-replace rs named,
    )

    -- After an UPDATE with a row that does not pass the test.
    pub passes-replace_failing :
        (rows : List (AllocationAlert F))
        → y.alert_key ≡ j
        → t y ≡ false
        → passes t (find_alert k (replace_first (has_key j) y rows))
          ≡ (passes t (find_alert k rows) && not (str_eq j k))
    unfolding find_first replace_first
    passes-replace_failing [] named h = refl
    passes-replace_failing (r ∷ rs) named h = ground (
      arith,
      named,
      h,
      eq_iff r.alert_key j,
      eq_iff r.alert_key k,
      eq_iff y.alert_key k,
      eq_iff j k,
      passes-replace_failing rs named,
    )

    -- After an INSERT of a key that is not stored.
    pub passes-append :
        (rows : List (AllocationAlert F))
        → y.alert_key ≡ j
        → any (has_key j) rows ≡ false
        → passes t (find_alert k (rows ++ y ∷ []))
          ≡ (if str_eq j k then t y else passes t (find_alert k rows))
    unfolding find_first
    passes-append [] named h = ground (arith, named, eq_iff y.alert_key k, eq_iff j k)
    passes-append (r ∷ rs) named h = ground (
      arith,
      named,
      h,
      eq_iff r.alert_key j,
      eq_iff r.alert_key k,
      eq_iff y.alert_key k,
      eq_iff j k,
      passes-append rs named,
    )
