-- ===== src/Trades/Calls.antt =====
-- Calls of backend/app/services/trade_service.py one after another, and what they leave in the
-- table of intents.
use codex_trading_app.Prelude.{
  ℕ, String, ◌≡◌, sym, ap, ◌∙◌, true, false, Option, none, some, List, [], ◌∷◌, ◌++◌, arith,
  Attempt, ok, raised,
}
use mathlib.Core.Option
use mathlib.Core.Path.{subst}
use codex_trading_app.Prelude.Rows.{find_first}
use codex_trading_app.Lifecycle.Intents.{StateInput}
use codex_trading_app.Trades.Intent.{TradeIntent, IntentUpdate, same_id}
use codex_trading_app.Trades.Table.{clashes, find_row, replace_row, IntentTable}
use codex_trading_app.Trades.Service.{
  StoreError, StateChange, get_trade_intent, create_trade_intent, transition_trade_intent,
}

same_id_eq : (x : Option ℕ) (id : ℕ) → same_id x (some id) ≡ true → x ≡ some id
same_id_eq none id h = ground (arith, h)
same_id_eq (some a) id h = ground (arith, h)

module _ {F : Type 0} where
  key_of_found :
      (id : ℕ) (r : TradeIntent F) (rows : List (TradeIntent F))
      → find_row (some id) rows ≡ some r
      → r.id ≡ some id
  unfolding find_first
  key_of_found id r [] e = ground (arith, e)
  key_of_found id r (o ∷ os) e = ground (arith, e, key_of_found id r os, same_id_eq o.id id)

  -- A row that is found is found by its own key.
  pub found_itself :
      (id : ℕ) (r : TradeIntent F) (rows : List (TradeIntent F))
      → find_row (some id) rows ≡ some r
      → find_row r.id rows ≡ some r
  found_itself id r rows e =
      subst (λ k. find_row k rows ≡ some r) (sym (key_of_found id r rows e)) e

-- A call: an intent that has no key yet, or a transition of the intent with a key, which is read first.
pub data Call (F : Type 0) : Type 0 where
  creating : TradeIntent F → Call F
  transitioning : ℕ → StateInput → IntentUpdate F → ℕ → Call F

module _ {F : Type 0} (table : IntentTable F) (sanitize_text : String → String) where
  open table use {Db, rows, new_id, insert, update, insert_lem, update_lem}

  -- What a call that fails leaves is what it found: it has been rolled back.
  unfoldable pub after_create : Attempt StoreError (TradeIntent F × Db) → Db → Db
  after_create (raised e) db = db
  after_create (ok (intent, after)) db = after

  unfoldable pub after_transition :
      Attempt StoreError (TradeIntent F × Db × Option StateChange) → Db → Db
  after_transition (raised e) db = db
  after_transition (ok (intent, after, event)) db = after

  unfoldable pub after_read : StateInput → IntentUpdate F → ℕ → Db → Option (TradeIntent F) → Db
  after_read target changes now db none = db
  after_read target changes now db (some intent) =
      after_transition (transition_trade_intent table sanitize_text target changes now intent db) db

  unfoldable pub perform : Call F → Db → Db
  perform (creating intent) db =
      after_create (create_trade_intent table sanitize_text (record intent { id = none }) db) db
  perform (transitioning id target changes now) db =
      after_read target changes now db (get_trade_intent table sanitize_text id db)

  unfoldable pub perform_all : List (Call F) → Db → Db
  perform_all [] db = db
  perform_all (c ∷ cs) db = perform_all cs (perform c db)

  pub insert-some :
      (r : TradeIntent F) (db after : Db)
      → insert r db ≡ some after
      → (clashes r (rows db) ≡ false)
        × (rows after ≡ rows db ++ record r { id = some (new_id db) } ∷ [])
  insert-some r db after e =
      let shape = sym (ap (Option.map rows) e) ∙ insert_lem r db in ground (arith, shape)

  pub update-some :
      (r : TradeIntent F) (db after : Db)
      → update r db ≡ some after
      → rows after ≡ replace_row r (rows db)
  update-some r db after e =
      let shape = sym (ap (Option.map rows) e) ∙ update_lem r db in ground (arith, shape)

  pub update-none : (r : TradeIntent F) (db : Db) → update r db ≡ none → clashes r (rows db) ≡ true
  update-none r db e =
      let shape = sym (ap (Option.map rows) e) ∙ update_lem r db in ground (arith, shape)
