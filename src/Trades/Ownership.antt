-- ===== src/Trades/Ownership.antt =====
-- At most one intent owns an instrument: rows and single calls of
-- backend/app/services/trade_service.py.
use codex_trading_app.Prelude.{
  ℕ, ◌≤◌, String, eq_iff, eq_refl, ◌≡◌, refl, sym, ◌∙◌, Bool, true, false, not, ◌&&◌, Option, none,
  some, List, [], ◌∷◌, ◌++◌, any, count, count-append, count_congr, arith, Bool-cases, inl, inr, ok,
  returned_first,
}
use codex_trading_app.Prelude.Rows.{count-replace_first, count_others}
use codex_trading_app.Lifecycle.IntentState.{
  TradeIntentState, proposed, rejected, approved, submitted, acknowledged, partially_filled, filled,
  position_opened, close_requested, closed, failed, cancelled, external_position_adopted,
  recovered_position_attached, forced_reconciliation_close, value, is_in,
  active_instrument_ownership_states,
}
use codex_trading_app.Lifecycle.Intents.{
  StateInput, text, parse_trade_intent_state, check_transition, validate_trade_intent_transition,
}
use codex_trading_app.Lifecycle.Intents.Table.{ownership_never_regained}
use codex_trading_app.Lifecycle.Parsing.{parse_iff_value, checked_target}
use codex_trading_app.Trades.Intent.{TradeIntent, owns, owns_instrument, same_id}
use codex_trading_app.Trades.Table.{clashes, find_row, replace_row}

owns-value : (s : TradeIntentState) → owns (value s) ≡ is_in s active_instrument_ownership_states
unfolding owns is_in value
owns-value proposed = refl
owns-value rejected = refl
owns-value approved = refl
owns-value submitted = refl
owns-value acknowledged = refl
owns-value partially_filled = refl
owns-value filled = refl
owns-value position_opened = refl
owns-value close_requested = refl
owns-value closed = refl
owns-value failed = refl
owns-value cancelled = refl
owns-value external_position_adopted = refl
owns-value recovered_position_attached = refl
owns-value forced_reconciliation_close = refl

-- A validated transition leads to a state with ownership only from one.
pub validated_ownership :
    (current : String) (target : StateInput) (next : TradeIntentState)
    → validate_trade_intent_transition (text current) target ≡ ok next
    → owns (value next) ≡ true
    → owns current ≡ true
unfolding validate_trade_intent_transition
validated_ownership current target next h owned =
    let (s, parsed, h₁) = returned_first (parse_trade_intent_state (text current)) _ h in
    let (t, parsed_target, h₂) =
      returned_first (parse_trade_intent_state target) (check_transition s) h₁ in
    let (same, allowed) = checked_target s t next h₂ in
    let named : value s ≡ current = (parse_iff_value current s).0 parsed in
    let before = (ownership_never_regained s next).1 allowed (sym (owns-value next) ∙ owned) in
    rw (← named) (owns-value s ∙ before)

any-count : {A : Type 0} (p : A → Bool) (xs : List A) → count p xs ≤ 0 → any p xs ≡ false
any-count p [] h = refl
any-count p (x ∷ xs) h = ground (arith, h, any-count p xs)

count-any : {A : Type 0} (p : A → Bool) (xs : List A) → any p xs ≡ false → count p xs ≡ 0
count-any p [] h = refl
count-any p (x ∷ xs) h = ground (arith, h, count-any p xs)

and_true : (b : Bool) → (b && true) ≡ b
and_true true = refl
and_true false = refl

pub same_id-none : (id : Option ℕ) → same_id id none ≡ false
same_id-none none = refl
same_id-none (some n) = refl

module _ {F : Type 0} where
  -- No instrument has two owners.
  abbrev pub OneOwner : List (TradeIntent F) → Type 0
  OneOwner rows = (i : String) → count (owns_instrument i) rows ≤ 1

  -- A change of a row that owns its instrument only if it did before breaks no index.
  pub unchanged_clashes :
      (r old : TradeIntent F) (rows : List (TradeIntent F))
      → OneOwner rows
      → find_row r.id rows ≡ some old
      → r.instrument ≡ old.instrument
      → (owns r.state ≡ true → owns old.state ≡ true)
      → clashes r rows ≡ false
  unfolding clashes owns_instrument
  unchanged_clashes r old rows one found same mono = elim (Bool-cases (owns r.state)) [
    | inr e ↦ rw e refl
    | inl e ↦
        let owner : owns_instrument r.instrument old ≡ true =
          cc (mono e, same, eq_refl old.instrument) in
        rw e (
          any-count (λ o. owns_instrument r.instrument o && not (same_id o.id r.id)) rows
            (omega (
              arith,
              one r.instrument,
              count_others (λ o. same_id o.id r.id) (owns_instrument r.instrument) old rows found
                  owner,
            )))
  ]

  -- So it keeps the owners apart.
  pub replace_row-OneOwner :
      (r old : TradeIntent F) (rows : List (TradeIntent F))
      → OneOwner rows
      → find_row r.id rows ≡ some old
      → r.instrument ≡ old.instrument
      → (owns r.state ≡ true → owns old.state ≡ true)
      → OneOwner (replace_row r rows)
  unfolding owns_instrument
  replace_row-OneOwner r old rows one found same mono i =
      let kept : owns_instrument i r ≡ true → owns_instrument i old ≡ true =
        λ h. ground (arith, h, same, mono) in
      omega (
        arith,
        one i,
        count-replace_first (λ o. same_id o.id r.id) (owns_instrument i) r old rows found kept,
      )

  -- A new row that the index admits keeps them apart too.
  pub append-OneOwner :
      (r new : TradeIntent F) (rows : List (TradeIntent F))
      → OneOwner rows
      → clashes r rows ≡ false
      → r.id ≡ none
      → new.instrument ≡ r.instrument
      → new.state ≡ r.state
      → OneOwner (rows ++ new ∷ [])
  unfolding clashes owns_instrument
  append-OneOwner r new rows one free fresh same_instrument same_state i =
      elim (Bool-cases (owns_instrument i new)) [
        | inr e ↦ ground (arith, e, one i, count-append (owns_instrument i) rows (new ∷ []))
        | inl e ↦
            let owner : owns r.state ≡ true = ground (arith, e, same_state) in
            let here : r.instrument ≡ i =
              ground (arith, e, same_instrument, eq_iff new.instrument i) in
            let none_other : any (λ o. owns_instrument r.instrument o && not (same_id o.id r.id))
                  rows
                ≡ false =
              ground (arith, free, owner) in
            let nobody = count-any _ rows none_other in
            let all_others =
              count_congr (owns_instrument r.instrument)
                (λ o. owns_instrument r.instrument o && not (same_id o.id r.id))
                (λ o.
                  rw fresh
                    (rw (same_id-none o.id) (sym (and_true (owns_instrument r.instrument o)))))
                rows in
            let empty : count (owns_instrument i) rows ≡ 0 = rw (← here) (all_others ∙ nobody) in
            ground (arith, empty, count-append (owns_instrument i) rows (new ∷ []))
      ]
