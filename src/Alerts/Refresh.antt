-- ===== src/Alerts/Refresh.antt =====
-- The two loops of `refresh_alerts` of backend/app/services/allocation_alert_service.py, by what a
-- key finds in the table.
use codex_trading_app.Prelude.{
  ℕ, suc, ◌≤◌, String, str_eq, ◌≡◌, refl, sym, ◌∙◌, Bool, true, false, not, ◌||◌, none, some, List,
  [], ◌∷◌, ◌++◌, length, length-append, any, arith, Bool-cases, inl, inr, if◌then◌else◌, ok,
}
use mathlib.Core.Path.{subst}
use codex_trading_app.Prelude.Rows.{replace_first}
use codex_trading_app.Redaction.Payload.{Payload}
use codex_trading_app.Alerts.Record.{AllocationAlert, AlertCandidate, is_active}
use codex_trading_app.Alerts.Table.{
  AlertTable, has_key, find_alert, sanitize_allocation_alert, insert_alert, update_alert,
}
use codex_trading_app.Alerts.Lookup.{
  passes, any-has_key, key_of_found, passes-replace, passes-append,
}
use codex_trading_app.Alerts.Service.{Readings, new_alert, reevaluated, evaluate}

-- A state that the code writes.
abbrev pub is_known : String → Bool
is_known state = is_active state || str_eq state "RESOLVED"

module _ {F : Type 0} where
  -- The row of a key is active.
  abbrev pub active_at : String → AlertTable F → Bool
  active_at k table = passes (λ a. is_active a.state) (find_alert k table.rows)

  -- The row of a key has a state that the code does not write.
  abbrev pub strange_at : String → AlertTable F → Bool
  strange_at k table = passes (λ a. not (is_known a.state)) (find_alert k table.rows)

  length-replace_first :
      (p : AllocationAlert F → Bool) (y : AllocationAlert F) (rows : List (AllocationAlert F))
      → length (replace_first p y rows) ≡ length rows
  unfolding replace_first
  length-replace_first p y [] = refl
  length-replace_first p y (r ∷ rs) = ground (arith, length-replace_first p y rs)

  -- What one candidate makes of the table.
  pub record Evaluated (key : String) (table next : AlertTable F) : Type 0 where
    pub active : (k : String) → active_at k next ≡ (active_at k table || str_eq key k)
    pub known :
        ((k : String) → strange_at k table ≡ false) → (k : String) → strange_at k next ≡ false
    pub stored :
        (k : String) → any (has_key k) next.rows ≡ (any (has_key k) table.rows || str_eq key k)
    pub grown : length next.rows ≤ suc (length table.rows)

  active-reevaluated :
      (c : AlertCandidate F) (now : ℕ) (a : AllocationAlert F)
      → not (is_known a.state) ≡ false
      → is_active (reevaluated c now a).state ≡ true
  unfolding reevaluated
  active-reevaluated c now a h = elim (Bool-cases (str_eq a.state "RESOLVED")) [
    | inl e ↦ rw e refl
    | inr e ↦ rw e (ground (arith, h, e))
  ]

  alert_key-reevaluated :
      (c : AlertCandidate F) (now : ℕ) (a : AllocationAlert F)
      → (reevaluated c now a).alert_key ≡ a.alert_key
  unfolding reevaluated
  alert_key-reevaluated c now a = ground arith

  module _ (lower substitute : String → String) (shown : Payload F → String)
      (clock : Readings) where
    -- Of a table in which a key is found to have one row: that row, in an active state.
    step_of_write :
        (key : String) (table next : AlertTable F) (row : AllocationAlert F)
        → is_active row.state ≡ true
        → ((t : AllocationAlert F → Bool) (k : String)
            → passes t (find_alert k next.rows)
              ≡ (if str_eq key k then t row else passes t (find_alert k table.rows)))
        → length next.rows ≤ suc (length table.rows)
        → Evaluated key table next
    step_of_write key table next row active written grown = record {
      active = λ k. ground (arith, active, written (λ a. is_active a.state) k);
      known = λ known k. ground (arith, active, known k, written (λ a. not (is_known a.state)) k);
      stored = λ k.
          ground (arith, written (λ a. true) k, any-has_key k next.rows, any-has_key k table.rows);
      grown = grown;
    }

    -- A candidate whose key is not stored is inserted.
    pub evaluate_new :
        (c : AlertCandidate F) (table : AlertTable F)
        → any (has_key c.alert_key) table.rows ≡ false
        → (next : AlertTable F) × (evaluate lower substitute shown clock c none table ≡ ok next)
          × Evaluated c.alert_key table next
    unfolding evaluate new_alert insert_alert sanitize_allocation_alert
    evaluate_new c table free =
        let fresh = new_alert c (clock.evaluated c.alert_key) (clock.row_created c.alert_key) in
        let row : AllocationAlert F =
          record (sanitize_allocation_alert lower substitute shown fresh) { id = table.next_id } in
        let next : AlertTable F = record {
          rows = table.rows ++ row ∷ [];
          next_id = suc table.next_id;
        } in
        (
          next,
          rw free refl,
          step_of_write c.alert_key table next row refl
              (λ t k. passes-append t k c.alert_key row table.rows refl free)
              (omega (arith, length-append table.rows (row ∷ []))),
        )

    -- A candidate whose key is stored is written to its row.
    pub evaluate_stored :
        (c : AlertCandidate F) (alert : AllocationAlert F) (table : AlertTable F)
        → find_alert c.alert_key table.rows ≡ some alert
        → strange_at c.alert_key table ≡ false
        → (next : AlertTable F) × (evaluate lower substitute shown clock c (some alert) table
            ≡ ok next)
          × Evaluated c.alert_key table next
    unfolding evaluate update_alert sanitize_allocation_alert
    evaluate_stored c alert table found known =
        let written = reevaluated c (clock.evaluated c.alert_key) alert in
        let row = sanitize_allocation_alert lower substitute shown written in
        let next = update_alert lower substitute shown written table in
        let named : written.alert_key ≡ c.alert_key =
          alert_key-reevaluated c (clock.evaluated c.alert_key) alert
          ∙ key_of_found c.alert_key alert table.rows found in
        let stored : any (has_key c.alert_key) table.rows ≡ true =
          rw (any-has_key c.alert_key table.rows, found) refl in
        (
          next,
          refl,
          subst (λ j. Evaluated j table next) named
              (step_of_write written.alert_key table next row
                (active-reevaluated c (clock.evaluated c.alert_key) alert (rw found at known))
                (λ t k.
                  passes-replace t k written.alert_key row table.rows refl
                    (subst (λ j. any (has_key j) table.rows ≡ true) (sym named) stored))
                (omega (arith, length-replace_first (has_key written.alert_key) row table.rows))),
        )
