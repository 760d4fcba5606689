-- ===== src/Alerts/Sync.antt =====
-- What `refresh_alerts` of backend/app/services/allocation_alert_service.py leaves in the table.
use codex_trading_app.Prelude.{
  ◌+◌, ◌≤◌, String, str_eq, eq_iff, eq_refl, ◌≡◌, refl, ap, ◌∙◌, Bool, true, false, not, ◌&&◌, ◌||◌,
  List, [], ◌∷◌, length, any, filter, count, arith, Bool-cases, Option-cases, inl, inr, ok,
}
use codex_trading_app.Redaction.Payload.{Payload}
use codex_trading_app.Alerts.Record.{AllocationAlert, AlertCandidate, is_active}
use codex_trading_app.Alerts.Table.{
  AlertTable, has_key, find_alert, sanitize_allocation_alert, update_alert, list_allocation_alerts,
}
use codex_trading_app.Alerts.Lookup.{
  any-eq-ltb, any-filter_all, any-list_allocation_alerts, any-has_key, any-filter_found,
  passes-replace_failing,
}
use codex_trading_app.Alerts.Service.{
  Readings, is_candidate, resolved_alert, evaluate, existing, evaluate_all, resolve_stale,
  resolve_all, resolve_listed, refresh_alerts,
}
use codex_trading_app.Alerts.Refresh.{
  active_at, strange_at, Evaluated, evaluate_new, evaluate_stored,
}

count_two :
    {A : Type 0} (p : A → Bool) (x : A) (xs : List A)
    → count p (x ∷ xs) ≤ 1
    → p x ≡ true
    → any p xs ≡ false
count_two p x xs once here = ground (arith, once, here, any-eq-ltb p xs)

same_candidate :
    {F : Type 0} (j k : String) (cs : List (AlertCandidate F))
    → str_eq j k ≡ true
    → is_candidate j cs ≡ is_candidate k cs
same_candidate j k cs same = ap (λ x. is_candidate x cs) ((eq_iff j k).0 same)

module _ {F : Type 0} (lower substitute : String → String) (shown : Payload F → String)
    (clock : Readings) where
  -- A candidate, with the listing right about its key.
  candidate_step :
      (listed : List (AllocationAlert F)) (c : AlertCandidate F) (table : AlertTable F)
      → any (has_key c.alert_key) listed ≡ any (has_key c.alert_key) table.rows
      → strange_at c.alert_key table ≡ false
      → (next : AlertTable F) × (evaluate lower substitute shown clock c
            (existing listed c.alert_key table)
            table
          ≡ ok next)
        × Evaluated c.alert_key table next
  unfolding existing
  candidate_step listed c table right known =
      elim (Bool-cases (any (has_key c.alert_key) table.rows)) [
        | inr free ↦ rw (right, free) (evaluate_new lower substitute shown clock c table free)
        | inl stored ↦ elim (Option-cases (find_alert c.alert_key table.rows)) [
          | inl missing ↦
              absurd (ground (arith, missing, stored, any-has_key c.alert_key table.rows))
          | inr (alert, found) ↦
              rw (right, stored, found)
                (evaluate_stored lower substitute shown clock c alert table found known)
        ]
      ]

  -- The first loop.
  evaluate_all-ok :
      (listed : List (AllocationAlert F)) (cs : List (AlertCandidate F)) (table : AlertTable F)
      → ((k : String)
          → is_candidate k cs ≡ true
          → any (has_key k) listed ≡ any (has_key k) table.rows)
      → ((k : String) → count (λ c. str_eq c.alert_key k) cs ≤ 1)
      → ((k : String) → strange_at k table ≡ false)
      → (next : AlertTable F) × (evaluate_all lower substitute shown clock listed cs table
          ≡ ok next)
        × ((k : String) → active_at k next ≡ (active_at k table || is_candidate k cs))
        × (length next.rows ≤ length table.rows + length cs)
  unfolding evaluate_all
  evaluate_all-ok listed [] table right once known = (table, refl, λ k. ground arith, omega arith)
  evaluate_all-ok listed (c ∷ cs) table right once known =
      let here : is_candidate c.alert_key (c ∷ cs) ≡ true = rw (eq_refl c.alert_key) refl in
      let (next, done, step) =
        candidate_step listed c table (right c.alert_key here) (known c.alert_key) in
      let (last, rest, active, grown) =
        evaluate_all-ok listed cs next
          (λ k later. ground (
            arith,
            later,
            step.stored k,
            right k,
            count_two (λ d. str_eq d.alert_key k) c cs (once k),
          ))
          (λ k. ground (arith, once k)) (step.known known) in
      (
        last,
        rw done rest,
        λ k. ground (arith, active k, step.active k),
        omega (arith, grown, step.grown),
      )

  active_at-resolve_stale :
      (k : String) (cs : List (AlertCandidate F)) (a : AllocationAlert F) (table : AlertTable F)
      → active_at k (resolve_stale lower substitute shown clock cs a table)
        ≡ (active_at k table && not (has_key k a && not (is_candidate k cs)))
  unfolding resolve_stale update_alert sanitize_allocation_alert resolved_alert
  active_at-resolve_stale k cs a table = elim (Bool-cases (is_candidate a.alert_key cs)) [
    | inl there ↦ rw there (ground (arith, same_candidate a.alert_key k cs, there))
    | inr gone ↦ rw gone (
        passes-replace_failing (λ b. is_active b.state) k a.alert_key
          (sanitize_allocation_alert lower substitute shown
            (resolved_alert (clock.resolved a.alert_key) (clock.updated a.alert_key) a))
          table.rows refl refl
        ∙ ground (arith, same_candidate a.alert_key k cs, gone))
  ]

  -- The second loop: the listed keys without a candidate lose their active row.
  active_at-resolve_all :
      (k : String) (cs : List (AlertCandidate F)) (listed : List (AllocationAlert F))
      (table : AlertTable F)
      → active_at k (resolve_all lower substitute shown clock cs listed table)
        ≡ (active_at k table && not (any (has_key k) listed && not (is_candidate k cs)))
  unfolding resolve_all resolve_stale
  active_at-resolve_all k cs [] table = ground arith
  active_at-resolve_all k cs (a ∷ rest) table = ground (
    arith,
    active_at-resolve_all k cs rest (resolve_stale lower substitute shown clock cs a table),
    active_at-resolve_stale k cs a table,
  )

  -- What the loops leave of a key, where the listing shows every active row.
  resolved_in_sync :
      (cs : List (AlertCandidate F)) (table : AlertTable F)
      → length table.rows ≤ 500
      → (k : String)
      → active_at k (resolve_listed lower substitute shown clock cs table)
        ≡ (active_at k table && is_candidate k cs)
  unfolding resolve_listed
  resolved_in_sync cs table small k =
      let listed = list_allocation_alerts 500 is_active table in
      let shows : any (has_key k) listed
          ≡ any (has_key k) (filter (λ a. is_active a.state) table.rows) =
        any-list_allocation_alerts (has_key k) 500 is_active table small in
      ground (
        arith,
        active_at-resolve_all k cs listed table,
        shows,
        any-filter_found k (λ a. is_active a.state) table.rows,
      )

  -- A refresh brings the alerts in line with the candidates: where no two candidates share a key,
  -- the table and the candidates together are at most 500 and every stored state is one that the
  -- code writes, it succeeds, and afterwards the row of a key is OPEN or ACKNOWLEDGED exactly when
  -- there is a candidate with that key.
  pub refresh_in_sync :
      (cs : List (AlertCandidate F)) (table : AlertTable F)
      → length table.rows + length cs ≤ 500
      → ((k : String) → count (λ c. str_eq c.alert_key k) cs ≤ 1)
      → ((k : String) → strange_at k table ≡ false)
      → (after : AlertTable F) × (refresh_alerts lower substitute shown clock cs table ≡ ok after)
        × ((k : String) → active_at k after ≡ is_candidate k cs)
  unfolding refresh_alerts
  refresh_in_sync cs table small once known =
      let listed = list_allocation_alerts 500 (λ s. true) table in
      let (evaluated, done, active, grown) =
        evaluate_all-ok listed cs table
          (λ k c.
            any-list_allocation_alerts (has_key k) 500 (λ s. true) table (omega arith)
            ∙ any-filter_all (has_key k) table.rows)
          once known in
      (
        resolve_listed lower substitute shown clock cs evaluated,
        rw done refl,
        λ k.
            ground (arith, active k, resolved_in_sync cs evaluated (omega (arith, small, grown)) k),
      )
