-- ===== src/Trades/Runs.antt =====
-- Who owns an instrument after any calls of backend/app/services/trade_service.py.
use codex_trading_app.Prelude.{
  ℕ, ◌≤◌, String, ◌≡◌, refl, sym, Option, none, some, List, [], ◌∷◌, count, Attempt, ok, raised,
}
use mathlib.Core.Path.{subst}
use codex_trading_app.Lifecycle.IntentState.{TradeIntentState}
use codex_trading_app.Lifecycle.Errors.{LifecycleError}
use codex_trading_app.Lifecycle.Intents.{StateInput, text, validate_trade_intent_transition}
use codex_trading_app.Trades.Intent.{
  TradeIntent, IntentUpdate, owns_instrument, sanitize_trade_intent, transitioned,
}
use codex_trading_app.Trades.Table.{find_row, replace_row, IntentTable}
use codex_trading_app.Trades.Service.{
  get_trade_intent, created, changed, create_trade_intent, commit_transition,
  transition_trade_intent,
}
use codex_trading_app.Trades.Ownership.{
  OneOwner, validated_ownership, replace_row-OneOwner, append-OneOwner,
}
use codex_trading_app.Trades.Calls.{
  Call, creating, transitioning, after_create, after_transition, after_read, perform, perform_all,
  found_itself, insert-some, update-some,
}

module _ {F : Type 0} (table : IntentTable F) (sanitize_text : String → String) where
  open table use {Db, rows, new_id, insert, update, insert_lem, update_lem}

  created-OneOwner :
      (row : TradeIntent F) (db : Db) (result : Option Db)
      → insert row db ≡ result
      → OneOwner (rows db)
      → row.id ≡ none
      → OneOwner
          (rows (after_create table sanitize_text (created table sanitize_text row db result) db))
  unfolding created after_create
  created-OneOwner row db none e one fresh = one
  created-OneOwner row db (some after) e one fresh =
      let (free, grown) = insert-some table sanitize_text row db after e in
      subst OneOwner (sym grown) (
        append-OneOwner row (record row { id = some (new_id db) }) (rows db) one free fresh refl
          refl)

  create-OneOwner :
      (intent : TradeIntent F) (db : Db)
      → OneOwner (rows db)
      → intent.id ≡ none
      → OneOwner (
          rows (
            after_create table sanitize_text
              (create_trade_intent table sanitize_text intent db)
              db))
  unfolding create_trade_intent sanitize_trade_intent
  create-OneOwner intent db one fresh =
      let row = sanitize_trade_intent sanitize_text intent in
      created-OneOwner row db (insert row db) refl one fresh

  pub transitioned-OneOwner :
      (target : StateInput) (changes : IntentUpdate F) (now : ℕ) (intent : TradeIntent F) (db : Db)
      (next : TradeIntentState)
      → OneOwner (rows db)
      → find_row intent.id (rows db) ≡ some intent
      → validate_trade_intent_transition (text intent.state) target ≡ ok next
      → OneOwner (replace_row (transitioned sanitize_text next changes now intent) (rows db))
  unfolding transitioned
  transitioned-OneOwner target changes now intent db next one found valid =
      replace_row-OneOwner (transitioned sanitize_text next changes now intent) intent (rows db) one
        found refl (validated_ownership intent.state target next valid)

  changed-OneOwner :
      (row intent : TradeIntent F) (db : Db) (result : Option Db)
      → update row db ≡ result
      → OneOwner (rows db)
      → OneOwner (replace_row row (rows db))
      → OneOwner (
          rows (
            after_transition table sanitize_text
              (changed table sanitize_text row intent db result)
              db))
  unfolding changed after_transition
  changed-OneOwner row intent db none e one replaced = one
  changed-OneOwner row intent db (some after) e one replaced =
      subst OneOwner (sym (update-some table sanitize_text row db after e)) replaced

  commit-OneOwner :
      (target : StateInput) (changes : IntentUpdate F) (now : ℕ) (intent : TradeIntent F) (db : Db)
      (checked : Attempt LifecycleError TradeIntentState)
      → validate_trade_intent_transition (text intent.state) target ≡ checked
      → OneOwner (rows db)
      → find_row intent.id (rows db) ≡ some intent
      → OneOwner (
          rows (
            after_transition table sanitize_text
              (commit_transition table sanitize_text changes now intent db checked)
              db))
  unfolding commit_transition after_transition
  commit-OneOwner target changes now intent db (raised e) valid one found = one
  commit-OneOwner target changes now intent db (ok next) valid one found =
      let row = transitioned sanitize_text next changes now intent in
      changed-OneOwner row intent db (update row db) refl one
        (transitioned-OneOwner target changes now intent db next one found valid)

  transition-OneOwner :
      (target : StateInput) (changes : IntentUpdate F) (now : ℕ) (intent : TradeIntent F) (db : Db)
      → OneOwner (rows db)
      → find_row intent.id (rows db) ≡ some intent
      → OneOwner (
          rows (
            after_transition table sanitize_text
              (transition_trade_intent table sanitize_text target changes now intent db)
              db))
  unfolding transition_trade_intent
  transition-OneOwner target changes now intent db one found =
      commit-OneOwner target changes now intent db
        (validate_trade_intent_transition (text intent.state) target) refl one found

  read-OneOwner :
      (id : ℕ) (target : StateInput) (changes : IntentUpdate F) (now : ℕ) (db : Db)
      (found : Option (TradeIntent F))
      → find_row (some id) (rows db) ≡ found
      → OneOwner (rows db)
      → OneOwner (rows (after_read table sanitize_text target changes now db found))
  unfolding after_read
  read-OneOwner id target changes now db none e one = one
  read-OneOwner id target changes now db (some intent) e one =
      transition-OneOwner target changes now intent db one (found_itself id intent (rows db) e)

  perform-OneOwner :
      (c : Call F) (db : Db)
      → OneOwner (rows db)
      → OneOwner (rows (perform table sanitize_text c db))
  unfolding perform get_trade_intent
  perform-OneOwner (creating intent) db one =
      create-OneOwner (record intent { id = none }) db one refl
  perform-OneOwner (transitioning id target changes now) db one =
      read-OneOwner id target changes now db (find_row (some id) (rows db)) refl one

  -- One intent per instrument: from a table in which no two intents own one instrument, every
  -- sequence of creations and transitions, refused ones included, leads to such a table.
  pub ownership_exclusive :
      (calls : List (Call F)) (db : Db)
      → ((i : String) → count (owns_instrument i) (rows db) ≤ 1)
      → (i : String)
      → count (owns_instrument i) (rows (perform_all table sanitize_text calls db)) ≤ 1
  unfolding perform_all
  ownership_exclusive [] db one = one
  ownership_exclusive (c ∷ cs) db one =
      ownership_exclusive cs (perform table sanitize_text c db) (perform-OneOwner c db one)
