-- ===== src/Alerts/Table.antt =====
-- The table of alerts, as backend/app/services/trade_service.py uses it. A row is named by its key,
-- which is unique and never written again; `next_id` is the primary key that the next row gets.
use Prim.Native.Nat.{zero}
use codex_trading_app.Prelude.{
  ℕ, suc, String, str_eq, Bool, ◌&&◌, ◌||◌, Option, List, [], ◌∷◌, ◌++◌, any, filter, Attempt, ok,
  raised, ltb, ◌==◌, if◌then◌else◌,
}
use codex_trading_app.Prelude.Rows.{find_first, replace_first}
use codex_trading_app.Prelude.Sort.{sorted}
use codex_trading_app.Redaction.Payload.{Payload}
use codex_trading_app.Redaction.Text.{sanitize_text}
use codex_trading_app.Redaction.Sanitize.{sanitize_fields}
use codex_trading_app.Trades.Intent.{sanitize_text_field}
use codex_trading_app.Alerts.Record.{AllocationAlert}

pub record AlertTable (F : Type 0) : Type 0 where
  pub rows : List (AllocationAlert F)
  pub next_id : ℕ

-- The database refuses a second row with the key of another.
pub data AlertError : Type 0 where
  integrity_error : AlertError

-- `.limit(n)`
unfoldable pub limited : {Row : Type 0} → List Row → ℕ → List Row
limited [] most = []
limited (row ∷ later) zero = []
limited (row ∷ later) (suc most) = row ∷ limited later most

module _ {F : Type 0} where
  abbrev pub has_key : String → AllocationAlert F → Bool
  has_key key alert = str_eq alert.alert_key key

  abbrev pub find_alert : String → List (AllocationAlert F) → Option (AllocationAlert F)
  find_alert key rows = find_first (has_key key) rows

  -- `order_by(desc(updated_at), desc(id))`
  unfoldable pub listed_before : AllocationAlert F → AllocationAlert F → Bool
  listed_before a b =
      ltb b.updated_at a.updated_at || (a.updated_at == b.updated_at && ltb b.id a.id)

  -- `list_allocation_alerts`, of the states that a test selects.
  unfoldable pub list_allocation_alerts :
      ℕ → (String → Bool) → AlertTable F → List (AllocationAlert F)
  unfolding limited sorted listed_before
  list_allocation_alerts limit in_states table =
      limited (sorted listed_before (filter (λ a. in_states a.state) table.rows)) limit

  -- `get_allocation_alert`
  unfoldable pub get_allocation_alert : ℕ → AlertTable F → Option (AllocationAlert F)
  get_allocation_alert id table = find_first (λ a. a.id == id) table.rows

  module _ (lower substitute : String → String) (shown : Payload F → String) where
    -- `_sanitize_allocation_alert`
    unfoldable pub sanitize_allocation_alert : AllocationAlert F → AllocationAlert F
    unfolding sanitize_text sanitize_fields
    sanitize_allocation_alert a =
        let title = sanitize_text substitute a.title in
        record a {
          title = if str_eq title "" then a.title else title;
          message = sanitize_text_field (sanitize_text substitute) a.message;
          details = sanitize_fields lower substitute shown a.details;
        }

    -- `upsert_allocation_alert` of an alert that is not stored yet.
    unfoldable pub insert_alert :
        AllocationAlert F → AlertTable F → Attempt AlertError (AlertTable F)
    unfolding sanitize_allocation_alert
    insert_alert a table =
        if any (has_key a.alert_key) table.rows
        then raised integrity_error
        else ok (record {
          rows = table.rows ++ record (sanitize_allocation_alert a) { id = table.next_id } ∷ [];
          next_id = suc table.next_id;
        })

    -- `upsert_allocation_alert` of a stored alert.
    unfoldable pub update_alert : AllocationAlert F → AlertTable F → AlertTable F
    unfolding sanitize_allocation_alert replace_first
    update_alert a table = record table {
      rows = replace_first (has_key a.alert_key) (sanitize_allocation_alert a) table.rows;
    }
