-- ===== src/Trades/Held.antt =====
-- Transitions of a stored intent that the states allow, by `transition_trade_intent` of
-- backend/app/services/trade_service.py: they succeed, and the intent stays as the table has it.
use codex_trading_app.Prelude.{
  ℕ, String, ◌≡◌, refl, sym, true, false, Bool, Option, none, some, List, [], ◌∷◌, arith, inl, inr,
  Option-cases, Attempt, ok,
}
use mathlib.Core.Path.{subst}
use codex_trading_app.Prelude.Rows.{find_first, replace_first}
use codex_trading_app.Lifecycle.IntentState.{TradeIntentState, value}
use codex_trading_app.Lifecycle.Intents.{StateInput, text, validate_trade_intent_transition}
use codex_trading_app.Trades.Intent.{TradeIntent, IntentUpdate, same_id, transitioned}
use codex_trading_app.Trades.Table.{find_row, IntentTable}
use codex_trading_app.Trades.Service.{
  StoreError, StateChange, state_change, changed, commit_transition, transition_trade_intent,
}
use codex_trading_app.Trades.Ownership.{OneOwner, same_id-none}
use codex_trading_app.Trades.Calls.{update-some, update-none}
use codex_trading_app.Trades.Runs.{transitioned-OneOwner}
use codex_trading_app.Trades.Refusals.{transitioned-unclashed}

replaced_found :
    {A : Type 0} (key : A → Bool) (y old : A) (xs : List A)
    → find_first key xs ≡ some old
    → key y ≡ true
    → find_first key (replace_first key y xs) ≡ some y
unfolding find_first replace_first
replaced_found key y old [] h k = ground (arith, h)
replaced_found key y old (x ∷ xs) h k = ground (arith, h, k, replaced_found key y old xs)

same_id_self : (n : ℕ) → same_id (some n) (some n) ≡ true
same_id_self n = ground arith

module _ {F : Type 0} where
  never_found : (rows : List (TradeIntent F)) → find_row none rows ≡ none
  unfolding find_first
  never_found [] = refl
  never_found (r ∷ rs) = rw (same_id-none r.id) (never_found rs)

  -- Only a key finds a row.
  key_of_row :
      (id : Option ℕ) (r : TradeIntent F) (rows : List (TradeIntent F))
      → find_row id rows ≡ some r
      → same_id id id ≡ true
  key_of_row none r rows h = cc (never_found rows)
  key_of_row (some n) r rows h = same_id_self n

module _ {F : Type 0} (table : IntentTable F) (sanitize_text : String → String) where
  open table use {Db, rows, new_id, insert, update, insert_lem, update_lem}

  -- The intent is as the table has it, in which no two intents own one instrument.
  abbrev pub Held : TradeIntent F → Db → Type 0
  Held intent db = OneOwner (rows db) × (find_row intent.id (rows db) ≡ some intent)

  -- What an allowed transition returns.
  abbrev pub Moved :
      Attempt StoreError (TradeIntent F × Db × Option StateChange) → TradeIntentState → Type 0
  Moved answer next =
      (row : TradeIntent F) × (after : Db) × (event : Option StateChange) × (answer
        ≡ ok (row, after, event))
      × Held row after
      × (row.state ≡ value next)

  clash_contradiction : {b : Bool} → b ≡ true → b ≡ false → ⊥
  clash_contradiction h k = cc

  state-transitioned :
      (next : TradeIntentState) (changes : IntentUpdate F) (now : ℕ) (intent : TradeIntent F)
      → (transitioned sanitize_text next changes now intent).state ≡ value next
  unfolding transitioned
  state-transitioned next changes now intent = refl

  transitioned-Held :
      (target : StateInput) (changes : IntentUpdate F) (now : ℕ) (intent : TradeIntent F)
      (db after : Db) (next : TradeIntentState)
      → Held intent db
      → validate_trade_intent_transition (text intent.state) target ≡ ok next
      → update (transitioned sanitize_text next changes now intent) db ≡ some after
      → Held (transitioned sanitize_text next changes now intent) after
  unfolding transitioned
  transitioned-Held target changes now intent db after next (one, found) valid written =
      let row = transitioned sanitize_text next changes now intent in
      let shape = sym (update-some table sanitize_text row db after written) in
      (
        subst OneOwner shape (
            transitioned-OneOwner table sanitize_text target changes now intent db next one found
              valid),
        subst (λ rs. find_row row.id rs ≡ some row) shape
            (replaced_found (λ o. same_id o.id row.id) row intent (rows db) found
              (key_of_row intent.id intent (rows db) found)),
      )

  pub transition-Moved :
      (target : StateInput) (changes : IntentUpdate F) (now : ℕ) (intent : TradeIntent F) (db : Db)
      (next : TradeIntentState)
      → Held intent db
      → validate_trade_intent_transition (text intent.state) target ≡ ok next
      → Moved (transition_trade_intent table sanitize_text target changes now intent db) next
  unfolding transition_trade_intent commit_transition changed
  transition-Moved target changes now intent db next held valid =
      let row = transitioned sanitize_text next changes now intent in
      let free =
        transitioned-unclashed table sanitize_text target changes now intent db next held.0 held.1
          valid in
      elim (Option-cases (update row db)) [
        | inl refused ↦
            absurd (clash_contradiction (update-none table sanitize_text row db refused) free)
        | inr (after, written) ↦ (
          row,
          after,
          state_change intent.state row.state,
          rw (valid, written) refl,
          transitioned-Held target changes now intent db after next held valid written,
          state-transitioned next changes now intent,
        )
      ]
