-- ===== src/Lifecycle/Refusals.antt =====
-- Which refusals of backend/app/services/lifecycle_rules.py are of a terminal trade intent.
use codex_trading_app.Prelude.{
  String, ◌≡◌, refl, sym, ap, ◌∙◌, ◌≢◌, ◌↔◌, ◌⊎◌, inl, inr, Bool, true, false, ok, Attempt, raised,
  raised_never_ok, arith, Bool-cases, Option-cases,
}
use mathlib.Core.Path.{subst}
use codex_trading_app.Lifecycle.IntentState.{TradeIntentState, value, is_in, of_value}
use codex_trading_app.Lifecycle.Errors.{
  LifecycleTransitionError, LifecycleError, unknown_value, refused,
}
use codex_trading_app.Lifecycle.Intents.{
  terminal_states, text, transitions, refusal, parse_trade_intent_state, check_transition,
  validate_trade_intent_transition,
}
use codex_trading_app.Lifecycle.Intents.Table.{terminal-IsStuck, terminal_reason}
use codex_trading_app.Lifecycle.Parsing.{parse_iff_value}

parse_cases :
    (given : String)
    → (parse_trade_intent_state (text given) ≡ raised (unknown_value given))
      ⊎ ((s : TradeIntentState) × (parse_trade_intent_state (text given) ≡ ok s))
unfolding parse_trade_intent_state
parse_cases given = elim (Option-cases (of_value given)) [
  | inl unknown ↦ inl (rw unknown refl)
  | inr (s, found) ↦ inr (s, rw found refl)
]

-- A terminal state goes to itself only.
stays_terminal :
    (s : TradeIntentState) → is_in s terminal_states ≡ true → is_in s (transitions s) ≡ true
unfolding transitions is_in
stays_terminal s h = ground arith

abbrev Reactivates : TradeIntentState → TradeIntentState → Type 0
Reactivates s t = (is_in s terminal_states ≡ true) × (s ≢ t)

abbrev Names : LifecycleTransitionError → TradeIntentState → TradeIntentState → Type 0
Names e s t =
    (e.reason ≡ "terminal trade intents cannot reactivate")
    × (e.current_state ≡ value s)
    × (e.target_state ≡ value t)

refusal-injective :
    (d e : LifecycleTransitionError)
    → Path (Attempt LifecycleError TradeIntentState) (raised (refused d)) (raised (refused e))
    → d ≡ e
refusal-injective d e h = cc

unknown_unrefused :
    {given : String} {e : LifecycleTransitionError}
    → Path
        (Attempt LifecycleError TradeIntentState)
        (raised (unknown_value given))
        (raised (refused e))
    → ⊥
unknown_unrefused h = cc

not_listed : (b : Bool) → b ≡ true → b ≡ false → ⊥
not_listed b h k = cc

check_transition-Reactivates :
    (s t : TradeIntentState) (e : LifecycleTransitionError)
    → check_transition s t ≡ raised (refused e)
    → e.reason ≡ "terminal trade intents cannot reactivate"
    → Reactivates s t
unfolding check_transition refusal
check_transition-Reactivates s t e h reason = elim (Bool-cases (is_in t (transitions s))) [
  | inl listed ↦ absurd (raised_never_ok (sym (rw listed at h)))
  | inr unlisted ↦
      let same = refusal-injective (refusal s t) e (rw unlisted at h) in
      let terminal =
        (terminal_reason s (is_in s terminal_states) refl).0
          (ap (λ (x : LifecycleTransitionError). x.reason) same ∙ reason) in
      (
        terminal,
        λ stays.
            not_listed (is_in t (transitions s))
              (subst (λ x. is_in x (transitions s) ≡ true) stays (stays_terminal s terminal))
              unlisted,
      )
]

Reactivates-refused :
    (s t : TradeIntentState)
    → Reactivates s t
    → (check_transition s t ≡ raised (refused (refusal s t))) × Names (refusal s t) s t
unfolding check_transition refusal
Reactivates-refused s t (terminal, moves) = elim (Bool-cases (is_in t (transitions s))) [
  | inl listed ↦ absurd (moves (terminal-IsStuck s terminal t (rw listed refl)))
  | inr unlisted ↦ (
    rw unlisted refl,
    ((terminal_reason s (is_in s terminal_states) refl).1 terminal, refl, refl),
  )
]

-- On two stored texts the validation refuses with the reason of a terminal intent, and the two texts in
-- the error, exactly when the first is the value of a terminal state and the second that of another
-- state.
pub terminal_reactivation_refused :
    (current target : String)
    → ((e : LifecycleTransitionError) × (validate_trade_intent_transition
            (text current)
            (text target)
          ≡ raised (refused e))
        × (e.reason ≡ "terminal trade intents cannot reactivate")
        × (e.current_state ≡ current)
        × (e.target_state ≡ target))
      ↔ ((s : TradeIntentState) × (t : TradeIntentState) × (value s ≡ current)
          × (value t ≡ target)
          × (is_in s terminal_states ≡ true)
          × (s ≢ t))
unfolding validate_trade_intent_transition
terminal_reactivation_refused current target = (
  λ (e, h, reason, named, named_target). elim (parse_cases current) [
    | inl unknown ↦ absurd (unknown_unrefused (rw unknown at h))
    | inr (s, parsed) ↦ elim (parse_cases target) [
      | inl unknown ↦ absurd (unknown_unrefused (rw (parsed, unknown) at h))
      | inr (t, parsed_target) ↦
          let (terminal, moves) =
            check_transition-Reactivates s t e (rw (parsed, parsed_target) at h) reason in
          (
            s,
            t,
            (parse_iff_value current s).0 parsed,
            (parse_iff_value target t).0 parsed_target,
            terminal,
            moves,
          )
    ]
  ],
  λ (s, t, e, f, terminal, moves).
      let (refuses, (reason, names, names')) = Reactivates-refused s t (terminal, moves) in
      (
        refusal s t,
        rw ((parse_iff_value current s).1 e, (parse_iff_value target t).1 f) refuses,
        reason,
        names ∙ e,
        names' ∙ f,
      ),
)
