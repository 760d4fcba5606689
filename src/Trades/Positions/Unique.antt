-- ===== src/Trades/Positions/Unique.antt =====
-- Open positions of a broker's reference, after any calls of the operations on positions of
-- backend/app/services/trade_service.py.
use codex_trading_app.Prelude.{
  ℕ, ◌≤◌, String, str_eq, eq_iff, ◌≡◌, refl, sym, ◌∙◌, Bool, true, Option, none, some, List, [],
  ◌∷◌, any, count, count-append, count_congr, Attempt, ok, raised, and_parts, arith, inl, inr,
  Bool-cases, Option-cases,
}
use codex_trading_app.Prelude.Rows.{find_first, count-replace_first}
use codex_trading_app.Trades.Positions.Store.{
  holds_text, Position, PositionError, PositionClosing, PositionAnalytics, is_open_at,
  get_open_position, overwritten, with_id, has_id, sanitize_position, insert_position,
  write_position, upsert_position, record_broker_position, analysed, closed_position, change_row,
  update_position_analytics, close_position,
}

module _ {A : Type 0} (key : A → Bool) where
  found_passes : (x : A) (xs : List A) → find_first key xs ≡ some x → key x ≡ true
  unfolding find_first
  found_passes x [] h = cc
  found_passes x (y ∷ xs) h = elim (Bool-cases (key y)) [
    | inl here ↦
        let found : some y ≡ some x = rw here at h in let same : y ≡ x = cc in rw (sym same) here
    | inr later ↦ found_passes x xs (rw later at h)
  ]

  unfound_uncounted : (xs : List A) → find_first key xs ≡ none → count key xs ≡ 0
  unfolding find_first
  unfound_uncounted [] h = refl
  unfound_uncounted (y ∷ xs) h = ground (arith, h, unfound_uncounted xs)

module _ (F : Type 0) where
  -- A call on positions, with its readings of the clock and the identifier of a new row.
  pub data PositionCall : Type 0 where
    upserting : ℕ → Position F → PositionCall
    recording : ℕ → ℕ → Position F → PositionCall
    updating : PositionAnalytics F → ℕ → PositionCall
    closing : ℕ → ℕ → PositionClosing F → ℕ → PositionCall

module _ {F : Type 0} where
  -- An exception leaves the rows as they were.
  abbrev pub rows_after :
      List (Position F) → Attempt PositionError (Position F × List (Position F)) → List (Position F)
  rows_after rows (raised problem) = rows
  rows_after rows (ok (row, after)) = after

  module _ (sanitize_text : String → String) (round : F → ℕ → F) (zero_pnl : F) where
    unfoldable pub perform_position_call : PositionCall F → List (Position F) → List (Position F)
    unfolding upsert_position record_broker_position update_position_analytics close_position
    perform_position_call (upserting new_id p) rows =
        rows_after rows (upsert_position sanitize_text round zero_pnl new_id p rows)
    perform_position_call (recording now new_id p) rows =
        rows_after rows (record_broker_position sanitize_text round zero_pnl now new_id p rows)
    perform_position_call (updating a id) rows =
        update_position_analytics sanitize_text round zero_pnl a id rows
    perform_position_call (closing now later c id) rows =
        close_position sanitize_text round zero_pnl now later c id rows

    unfoldable pub run_position_calls :
        List (PositionCall F) → List (Position F) → List (Position F)
    unfolding perform_position_call
    run_position_calls [] rows = rows
    run_position_calls (c ∷ calls) rows = run_position_calls calls (perform_position_call c rows)

    module _ (strategy reference : String) where
      abbrev counts_open : Position F → Bool
      counts_open p = is_open_at "" (some strategy) (some reference) p

      abbrev AtMostOne : List (Position F) → Type 0
      AtMostOne rows = count counts_open rows ≤ 1

      same_market :
          (instrument name : String) (ref : Option String) (q : Position F)
          → holds_text ref reference ≡ true
          → str_eq name strategy ≡ true
          → is_open_at instrument (some name) ref q ≡ counts_open q
      same_market instrument name none q r s = cc
      same_market instrument name (some ref) q r s =
          rw ((eq_iff ref reference).0 r, (eq_iff name strategy).0 s) refl

      -- For a position that is counted, the search looks for those that are.
      searched :
          (p q : Position F)
          → counts_open p ≡ true
          → is_open_at p.instrument (some p.strategy_name) p.broker_reference q ≡ counts_open q
      searched p q h =
          same_market p.instrument p.strategy_name p.broker_reference q
            (and_parts _ _ (and_parts _ _ h).0).1 (and_parts _ _ h).1

      insert_position-AtMostOne :
          (new_id : ℕ) (p : Position F) (rows : List (Position F))
          → AtMostOne rows
          → get_open_position p.instrument (some p.strategy_name) p.broker_reference rows ≡ none
          → AtMostOne (rows_after rows (insert_position sanitize_text round zero_pnl new_id p rows))
      unfolding insert_position get_open_position
      insert_position-AtMostOne new_id p rows one unfound =
          elim (Bool-cases (any (has_id p.id) rows)) [
            | inl taken ↦ rw taken one
            | inr free ↦ elim (Bool-cases (counts_open p)) [
              | inl counted ↦
                  let none_yet =
                    unfound_uncounted
                      (is_open_at p.instrument (some p.strategy_name) p.broker_reference) rows
                      unfound in
                  let same =
                    count_congr (is_open_at p.instrument (some p.strategy_name) p.broker_reference)
                      counts_open (λ q. searched p q counted) rows in
                  rw (free, count-append counts_open rows (with_id new_id p ∷ []), counted)
                    (omega (arith, none_yet, same))
              | inr other ↦
                  rw (free, count-append counts_open rows (with_id new_id p ∷ []), other)
                    (omega (arith, one))
            ]
          ]

      write_position-AtMostOne :
          (new_id : ℕ) (p : Position F) (rows : List (Position F)) (found : Option (Position F))
          → get_open_position p.instrument (some p.strategy_name) p.broker_reference rows ≡ found
          → AtMostOne rows
          → AtMostOne
              (rows_after rows (write_position sanitize_text round zero_pnl new_id p rows found))
      unfolding write_position get_open_position
      write_position-AtMostOne new_id p rows none h one =
          insert_position-AtMostOne new_id p rows one h
      write_position-AtMostOne new_id p rows (some old) h one =
          let key = is_open_at p.instrument (some p.strategy_name) p.broker_reference in
          let fewer =
            count-replace_first key counts_open (overwritten p old) old rows h
              (λ counted. sym (searched p old counted) ∙ found_passes key old rows h) in
          omega (arith, fewer, one)

      change_row-AtMostOne :
          (change : Position F → Position F)
          → ((p : Position F)
              → is_open_at "" (some strategy) (some reference) (change p) ≡ true
              → is_open_at "" (some strategy) (some reference) p ≡ true)
          → (id : ℕ) (rows : List (Position F)) → AtMostOne rows
          → AtMostOne (
              change_row sanitize_text round zero_pnl change id rows
                (find_first (has_id (some id)) rows))
      change_row-AtMostOne change mono id rows one =
          elim (Option-cases (find_first (has_id (some id)) rows)) [
            | inl missing ↦ rw missing one
            | inr (p, found) ↦
                let fewer =
                  count-replace_first (has_id (some id)) counts_open (change p) p rows found
                    (mono p) in
                rw found (omega (arith, fewer, one))
          ]

      perform_position_call-AtMostOne :
          (c : PositionCall F) (rows : List (Position F))
          → AtMostOne rows
          → AtMostOne (perform_position_call c rows)
      unfolding perform_position_call upsert_position record_broker_position
          update_position_analytics close_position
      perform_position_call-AtMostOne (upserting new_id p) rows one =
          write_position-AtMostOne new_id (sanitize_position sanitize_text round zero_pnl p) rows _
            refl one
      perform_position_call-AtMostOne (recording now new_id p) rows one =
          write_position-AtMostOne new_id _ rows _ refl one
      perform_position_call-AtMostOne (updating a id) rows one =
          change_row-AtMostOne (analysed sanitize_text round zero_pnl a) (λ p h. h) id rows one
      perform_position_call-AtMostOne (closing now later c id) rows one =
          change_row-AtMostOne (closed_position sanitize_text round zero_pnl now later c)
            (λ p h. cc) id rows one

      -- Where at most one open position of a strategy has a broker's reference, there is at most one
      -- after any calls that upsert, record, update or close positions.
      pub one_open_position :
          (calls : List (PositionCall F)) (rows : List (Position F))
          → count (is_open_at "" (some strategy) (some reference)) rows ≤ 1
          → count (is_open_at "" (some strategy) (some reference)) (run_position_calls calls rows)
            ≤ 1
      unfolding run_position_calls
      one_open_position [] rows one = one
      one_open_position (c ∷ calls) rows one =
          one_open_position calls (perform_position_call c rows)
            (perform_position_call-AtMostOne c rows one)
