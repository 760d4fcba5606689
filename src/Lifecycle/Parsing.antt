-- ===== src/Lifecycle/Parsing.antt =====
-- Stored states are texts: the parsing of backend/app/services/lifecycle_rules.py against the
-- values of backend/app/models/trade.py.
use codex_trading_app.Prelude.{
  String, ◌≡◌, refl, ◌↔◌, Bool-cases, inl, inr, Option, some, List, [], ◌∷◌, ok, returned_first,
  str_eq, eq_iff, arith,
}
use codex_trading_app.Lifecycle.IntentState.{
  TradeIntentState, proposed, value, is_in, members, find_value, of_value,
}
use codex_trading_app.Lifecycle.Intents.Table.{Allowed}
use codex_trading_app.Lifecycle.Intents.{
  text, known, transitions, parse_trade_intent_state, check_transition,
  validate_trade_intent_transition,
}

of_value-value : (s : TradeIntentState) → of_value (value s) ≡ some s
unfolding of_value value
of_value-value proposed = refl
of_value-value _ = refl

find_value_sound :
    (given : String) (s : TradeIntentState) (states : List TradeIntentState)
    → find_value given states ≡ some s
    → value s ≡ given
unfolding find_value
find_value_sound given s [] h = cc
find_value_sound given s (t ∷ rest) h = elim (Bool-cases (str_eq (value t) given)) [
  | inl e ↦ ground (arith, eq_iff (value t) given)
  | inr e ↦ find_value_sound given s rest (ground arith)
]

known-ok :
    (given : String) (o : Option TradeIntentState) {s : TradeIntentState}
    → known given o ≡ ok s
    → o ≡ some s
unfolding known
known-ok given o h = ground arith

-- A stored text parses to a state exactly when it is the value of that state, so no two states
-- share a value and every state survives being stored.
pub parse_iff_value :
    (given : String) (s : TradeIntentState)
    → (parse_trade_intent_state (text given) ≡ ok s) ↔ (value s ≡ given)
unfolding parse_trade_intent_state
parse_iff_value given s = (
  λ h. find_value_sound given s members (unfold of_value in known-ok given (of_value given) h),
  λ e. rw (← e) (rw (of_value-value s)),
)

pub checked_target :
    (s t r : TradeIntentState) → check_transition s t ≡ ok r → (t ≡ r) × Allowed s r
unfolding check_transition
checked_target s t r h = elim (Bool-cases (is_in t (transitions s))) [
  | inl e ↦ let same : t ≡ r = ground (arith, e, h) in (same, rw (← same) (rw e))
  | inr e ↦ absurd (ground (arith, e, h))
]

-- On two stored texts the validation returns a state exactly when the first text is the value of
-- some state, the second is the value of the state returned, and the table allows to go from the
-- one to the other.
pub validate_iff_Allowed :
    (current target : String) (r : TradeIntentState)
    → (validate_trade_intent_transition (text current) (text target) ≡ ok r)
      ↔ ((s : TradeIntentState) × (value s ≡ current) × (value r ≡ target) × Allowed s r)
unfolding validate_trade_intent_transition
validate_iff_Allowed current target r = (
  λ h.
      let (s, parsed, h₁) = returned_first (parse_trade_intent_state (text current)) _ h in
      let (t, parsed_target, h₂) =
        returned_first (parse_trade_intent_state (text target)) (check_transition s) h₁ in
      let (same, allowed) = checked_target s t r h₂ in
      (
        s,
        (parse_iff_value current s).0 parsed,
        (parse_iff_value target r).0 (rw (← same) parsed_target),
        allowed,
      ),
  λ (s, e, f, allowed).
      rw ((parse_iff_value current s).1 e, (parse_iff_value target r).1 f) allowed,
)
