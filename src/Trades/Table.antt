-- ===== src/Trades/Table.antt =====
-- The table of trade intents, as backend/app/services/trade_service.py uses it: an interface, whose
-- laws say what a database does with the unique partial index of `TradeIntent` in
-- backend/app/models/trade.py.
use codex_trading_app.Prelude.{
  ℕ, ◌≡◌, Bool, not, ◌&&◌, Option, none, some, List, [], ◌∷◌, ◌++◌, any, if◌then◌else◌,
}
use mathlib.Core.Option
use codex_trading_app.Prelude.Rows.{find_first, replace_first}
use codex_trading_app.Trades.Intent.{TradeIntent, owns, owns_instrument, same_id}

module _ {F : Type 0} where
  -- `uq_trade_intent_active_instrument` refuses the row: another row owns its instrument.
  unfoldable pub clashes : TradeIntent F → List (TradeIntent F) → Bool
  clashes r rows =
      owns r.state && any (λ o. owns_instrument r.instrument o && not (same_id o.id r.id)) rows

  -- The row with a primary key, and that row replaced.
  abbrev pub find_row : Option ℕ → List (TradeIntent F) → Option (TradeIntent F)
  find_row id rows = find_first (λ o. same_id o.id id) rows

  abbrev pub replace_row : TradeIntent F → List (TradeIntent F) → List (TradeIntent F)
  replace_row r rows = replace_first (λ o. same_id o.id r.id) r rows

-- `insert` is INSERT with the COMMIT behind it, `update` the UPDATE of a changed row with its COMMIT;
-- `none` is an IntegrityError, after which the transaction is rolled back. `new_id` is the key that
-- the next row gets.
pub record IntentTable (F : Type 0) : Type 1 where
  pub Db : Type 0
  pub rows : Db → List (TradeIntent F)
  pub new_id : Db → ℕ
  pub insert : TradeIntent F → Db → Option Db
  pub update : TradeIntent F → Db → Option Db
  pub insert_lem :
      (r : TradeIntent F) (db : Db)
      → Option.map rows (insert r db) ≡ (
          if clashes r (rows db)
          then none
          else some (rows db ++ record r { id = some (new_id db) } ∷ []))
  pub update_lem :
      (r : TradeIntent F) (db : Db)
      → Option.map rows (update r db)
        ≡ (if clashes r (rows db) then none else some (replace_row r (rows db)))
