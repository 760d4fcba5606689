-- ===== src/Trades/Refusals.antt =====
-- When a transition of a stored intent fails: `transition_trade_intent` of
-- backend/app/services/trade_service.py.
use codex_trading_app.Prelude.{
  ℕ, ◌≤◌, String, ◌≡◌, refl, false, Option, none, some, count, arith, Attempt, ok, raised,
}
use codex_trading_app.Lifecycle.IntentState.{TradeIntentState}
use codex_trading_app.Lifecycle.Errors.{LifecycleError}
use codex_trading_app.Lifecycle.Intents.{StateInput, text, validate_trade_intent_transition}
use codex_trading_app.Trades.Intent.{TradeIntent, IntentUpdate, owns_instrument, transitioned}
use codex_trading_app.Trades.Table.{clashes, find_row, IntentTable}
use codex_trading_app.Trades.Service.{
  StoreError, transition_refused, changed, commit_transition, transition_trade_intent,
}
use codex_trading_app.Trades.Ownership.{OneOwner, validated_ownership, unchanged_clashes}
use codex_trading_app.Trades.Calls.{update-none}

module _ {F : Type 0} (table : IntentTable F) (sanitize_text : String → String) where
  open table use {Db, rows, new_id, insert, update, insert_lem, update_lem}

  -- A transition that the states allow, on a row of the table, is never refused by the index.
  pub transitioned-unclashed :
      (target : StateInput) (changes : IntentUpdate F) (now : ℕ) (intent : TradeIntent F) (db : Db)
      (next : TradeIntentState)
      → OneOwner (rows db)
      → find_row intent.id (rows db) ≡ some intent
      → validate_trade_intent_transition (text intent.state) target ≡ ok next
      → clashes (transitioned sanitize_text next changes now intent) (rows db) ≡ false
  unfolding transitioned
  transitioned-unclashed target changes now intent db next one found valid =
      unchanged_clashes (transitioned sanitize_text next changes now intent) intent (rows db) one
        found refl (validated_ownership intent.state target next valid)

  changed-ok :
      (row intent : TradeIntent F) (db : Db) (result : Option Db) (problem : StoreError)
      → update row db ≡ result
      → clashes row (rows db) ≡ false
      → changed table sanitize_text row intent db result ≡ raised problem
      → ⊥
  unfolding changed
  changed-ok row intent db none problem e free h =
      ground (arith, free, update-none table sanitize_text row db e)
  changed-ok row intent db (some after) problem e free h = cc

  commit-refused :
      (target : StateInput) (changes : IntentUpdate F) (now : ℕ) (intent : TradeIntent F) (db : Db)
      (checked : Attempt LifecycleError TradeIntentState) (problem : StoreError)
      → validate_trade_intent_transition (text intent.state) target ≡ checked
      → OneOwner (rows db)
      → find_row intent.id (rows db) ≡ some intent
      → commit_transition table sanitize_text changes now intent db checked ≡ raised problem
      → (e : LifecycleError) × (problem ≡ transition_refused e) × (checked ≡ raised e)
  unfolding commit_transition
  commit-refused target changes now intent db (raised e) problem valid one found h = (e, cc, refl)
  commit-refused target changes now intent db (ok next) problem valid one found h =
      let row = transitioned sanitize_text next changes now intent in
      absurd (
        changed-ok row intent db (update row db) problem refl
          (transitioned-unclashed target changes now intent db next one found valid) h)

  -- A transition of a stored intent fails only where the state machine refuses it: with one owner
  -- per instrument, the unique index accepts every transition that the states allow, so the handling
  -- of an IntegrityError is never reached.
  pub transition_never_conflicts :
      (target : StateInput) (changes : IntentUpdate F) (now : ℕ) (intent : TradeIntent F) (db : Db)
      (problem : StoreError)
      → ((i : String) → count (owns_instrument i) (rows db) ≤ 1)
      → find_row intent.id (rows db) ≡ some intent
      → transition_trade_intent table sanitize_text target changes now intent db ≡ raised problem
      → (e : LifecycleError) × (problem ≡ transition_refused e)
        × (validate_trade_intent_transition (text intent.state) target ≡ raised e)
  unfolding transition_trade_intent
  transition_never_conflicts target changes now intent db problem one found h =
      commit-refused target changes now intent db
        (validate_trade_intent_transition (text intent.state) target) problem refl one found h
