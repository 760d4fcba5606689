-- ===== src/Trades/Positions/Store.antt =====
-- The rows of `Position` (backend/app/models/trade.py) and the operations of
-- backend/app/services/trade_service.py on them. `F` is the type of floats.
use codex_trading_app.Prelude.{
  ℕ, String, str_eq, Bool, true, false, ◌&&◌, ◌||◌, Option, none, some, List, [], ◌∷◌, ◌++◌, any,
  Attempt, ok, raised, if◌then◌else◌,
}
use codex_trading_app.Prelude.Rows.{find_first, replace_first}
use codex_trading_app.Trades.Intent.{same_id, set_field, sanitize_text_field}
use codex_trading_app.Trades.Executions.Record.{given_or}

pub record Position (F : Type 0) : Type 0 where
  pub id : Option ℕ
  pub trade_intent_id : Option ℕ
  pub strategy_name : String
  pub family_name : Option String
  pub broker_reference : Option String
  pub instrument : String
  pub direction : String
  pub size : F
  pub open_price : F
  pub close_price : Option F
  pub open_time : ℕ
  pub close_time : Option ℕ
  pub pnl : Option F
  pub current_price : Option F
  pub unrealized_pnl : Option F
  pub risk_percent : Option F
  pub entry_risk_amount : Option F
  pub risk_truth_confidence : Option String
  pub reason : Option String
  pub manual_override : Bool
  pub account_type : String
  pub is_open : Bool
  pub broker_sync_status : String
  pub close_execution_source : Option String
  pub broker_open_confirmed_at : Option ℕ
  pub broker_closed_confirmed_at : Option ℕ
  pub last_reconciled_at : Option ℕ
  pub created_at : ℕ

-- A row is given whose identifier is taken.
pub data PositionError : Type 0 where
  identifier_taken : Option ℕ → PositionError

-- The arguments of `close_position` that may be given.
pub record PositionClosing (F : Type 0) : Type 0 where
  pub close_price : Option F
  pub close_time : Option ℕ
  pub pnl : Option F
  pub broker_sync_status : String
  pub close_execution_source : Option String
  pub close_reason : Option String
  pub broker_confirmed_at : Option ℕ

-- The arguments of `update_position_analytics`.
pub record PositionAnalytics (F : Type 0) : Type 0 where
  pub current_price : F
  pub unrealized_pnl : F
  pub risk_percent : Option F
  pub pnl : Option F
  pub reason : Option String

-- A column that may be null, compared with a text.
abbrev pub holds_text : Option String → String → Bool
holds_text none t = false
holds_text (some s) t = str_eq s t

-- A filter that is used only if it is given.
abbrev pub holds_if_given : String → Option String → Bool
holds_if_given s none = true
holds_if_given s (some t) = str_eq s t

module _ {F : Type 0} where
  -- The broker's reference decides, if there is one, or else the instrument.
  abbrev pub is_of_market : String → Option String → Position F → Bool
  is_of_market instrument none p = str_eq p.instrument instrument
  is_of_market instrument (some reference) p = holds_text p.broker_reference reference

  -- The statement of `get_open_position`.
  abbrev pub is_open_at : String → Option String → Option String → Position F → Bool
  is_open_at instrument strategy_name broker_reference p =
      p.is_open
      && is_of_market instrument broker_reference p
      && holds_if_given p.strategy_name strategy_name

  -- `get_open_position`; the rows are in the order in which the database gives them.
  unfoldable pub get_open_position :
      String → Option String → Option String → List (Position F) → Option (Position F)
  unfolding find_first
  get_open_position instrument strategy_name broker_reference rows =
      find_first (is_open_at instrument strategy_name broker_reference) rows

  -- What `upsert_position` copies to the row there is: neither the instrument nor what the row keeps.
  abbrev pub overwritten : Position F → Position F → Position F
  overwritten position existing = record position {
    id = existing.id;
    instrument = existing.instrument;
    created_at = existing.created_at;
  }

  abbrev pub with_id : ℕ → Position F → Position F
  with_id n position = record position { id = some (given_or position.id n) }

  abbrev pub has_id : Option ℕ → Position F → Bool
  has_id id p = same_id p.id id

  -- `new_id` is the identifier of a row that is stored without one.
  module _ (sanitize_text : String → String) (round : F → ℕ → F) (zero_pnl : F) where
    -- `_sanitize_position`
    abbrev pub sanitize_position : Position F → Position F
    sanitize_position position = record position {
      reason = sanitize_text_field sanitize_text position.reason;
    }

    unfoldable pub insert_position :
        ℕ → Position F → List (Position F) → Attempt PositionError (Position F × List (Position F))
    insert_position new_id position rows =
        if any (has_id position.id) rows
        then raised (identifier_taken position.id)
        else ok (with_id new_id position, rows ++ with_id new_id position ∷ [])

    unfoldable pub write_position :
        ℕ
        → Position F
        → List (Position F)
        → Option (Position F)
        → Attempt PositionError (Position F × List (Position F))
    unfolding insert_position replace_first
    write_position new_id position rows none = insert_position new_id position rows
    write_position new_id position rows (some existing) =
        let row = overwritten position existing in
        ok (
          row,
          replace_first
              (is_open_at position.instrument (some position.strategy_name)
                position.broker_reference)
              row rows,
        )

    -- `upsert_position`, of a position that is not itself a stored row.
    unfoldable pub upsert_position :
        ℕ → Position F → List (Position F) → Attempt PositionError (Position F × List (Position F))
    unfolding write_position get_open_position
    upsert_position new_id position rows =
        let clean = sanitize_position position in
        write_position new_id clean rows (
          get_open_position clean.instrument (some clean.strategy_name) clean.broker_reference rows)

    -- `record_broker_position`
    unfoldable pub record_broker_position :
        ℕ
        → ℕ
        → Position F
        → List (Position F)
        → Attempt PositionError (Position F × List (Position F))
    unfolding upsert_position
    record_broker_position now new_id position rows =
        let reported =
          str_eq position.broker_sync_status "PENDING"
          || str_eq position.broker_sync_status "CONFIRMED" in
        let confirmed = record position {
          broker_open_confirmed_at =
              some (given_or position.broker_open_confirmed_at position.open_time);
          broker_sync_status = "CONFIRMED";
          last_reconciled_at = some now;
        } in
        upsert_position new_id (if reported then confirmed else position) rows

    abbrev rounded : Option F → Option F
    rounded none = none
    rounded (some x) = some (round x 2)

    -- What `update_position_analytics` writes.
    abbrev pub analysed : PositionAnalytics F → Position F → Position F
    analysed a p = record p {
      current_price = some a.current_price;
      unrealized_pnl = some (round a.unrealized_pnl 2);
      risk_percent = set_field a.risk_percent p.risk_percent;
      pnl = set_field (rounded a.pnl) p.pnl;
      reason = sanitize_text_field sanitize_text (set_field a.reason p.reason);
    }

    -- What `close_position` writes; `now` and `later` are its readings of the clock.
    abbrev pub closed_position : ℕ → ℕ → PositionClosing F → Position F → Position F
    closed_position now later c p =
        let price = set_field c.close_price p.close_price in
        let time = set_field c.close_time p.close_time in
        record p {
          is_open = false;
          close_price = price;
          close_time = time;
          pnl = set_field c.pnl p.pnl;
          current_price = set_field price p.current_price;
          unrealized_pnl = some zero_pnl;
          broker_sync_status = c.broker_sync_status;
          close_execution_source = set_field c.close_execution_source p.close_execution_source;
          broker_closed_confirmed_at = some (given_or (set_field c.broker_confirmed_at time) now);
          last_reconciled_at = some later;
          reason = sanitize_text_field sanitize_text (set_field c.close_reason p.reason);
        }

    -- A stored row is changed and committed.
    abbrev pub change_row :
        (Position F → Position F) → ℕ → List (Position F) → Option (Position F) → List (Position F)
    change_row change id rows none = rows
    change_row change id rows (some p) = replace_first (has_id (some id)) (change p) rows

    -- `update_position_analytics`, of the row of an identifier.
    unfoldable pub update_position_analytics :
        PositionAnalytics F → ℕ → List (Position F) → List (Position F)
    unfolding find_first replace_first
    update_position_analytics a id rows =
        change_row (analysed a) id rows (find_first (has_id (some id)) rows)

    -- `close_position`, of the row of an identifier.
    unfoldable pub close_position :
        ℕ → ℕ → PositionClosing F → ℕ → List (Position F) → List (Position F)
    unfolding find_first replace_first
    close_position now later c id rows =
        change_row (closed_position now later c) id rows (find_first (has_id (some id)) rows)
