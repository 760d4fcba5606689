-- ===== src/Lifecycle/Intents/Paths.antt =====
-- The courses that a trade intent can take under the transition table of
-- backend/app/services/lifecycle_rules.py.
use codex_trading_app.Prelude.{◌≡◌, refl, not, Bool, true, false, List, [], ◌∷◌, arith}
use codex_trading_app.Lifecycle.IntentState.{
  TradeIntentState, proposed, rejected, approved, submitted, acknowledged, partially_filled, filled,
  position_opened, closed, failed, cancelled, forced_reconciliation_close, is_in,
}
use codex_trading_app.Lifecycle.Intents.{terminal_states, check_transition}
use codex_trading_app.Lifecycle.Intents.Table.{Allowed}

-- The states that an intent takes one after another, each by an allowed transition.
abbrev pub IsCourse : TradeIntentState → List TradeIntentState → Type 0
IsCourse s [] = Unit
IsCourse s (t ∷ ts) = Allowed s t × IsCourse t ts

abbrev pub end : TradeIntentState → List TradeIntentState → TradeIntentState
end s [] = s
end s (t ∷ ts) = end t ts

is_in-cons :
    (g t : TradeIntentState) (ts : List TradeIntentState)
    → is_in g ts ≡ true
    → is_in g (t ∷ ts) ≡ true
unfolding is_in
is_in-cons g t ts h = ground arith

is_in_head : (t : TradeIntentState) (ts : List TradeIntentState) → is_in t (t ∷ ts) ≡ true
unfolding is_in
is_in_head t ts = ground arith

-- A course that leaves a set of states, when every transition out of the set goes to one state,
-- visits that state.
module _ (inside : TradeIntentState → Bool) (gate : TradeIntentState)
    (only_exit : (s t : TradeIntentState)
      → inside s ≡ true
      → Allowed s t
      → inside t ≡ false
      → t ≡ gate) where
  visits_gate_from :
      (s t : TradeIntentState) (ts : List TradeIntentState) (b : Bool)
      → inside t ≡ b
      → (b ≡ true → is_in gate ts ≡ true)
      → inside s ≡ true
      → Allowed s t
      → is_in gate (t ∷ ts) ≡ true
  visits_gate_from s t ts true e later h a = is_in-cons gate t ts (later refl)
  visits_gate_from s t ts false e later h a = rw (only_exit s t h a e) (is_in_head gate ts)

  pub visits_gate :
      (s : TradeIntentState) (ts : List TradeIntentState)
      → inside s ≡ true
      → IsCourse s ts
      → inside (end s ts) ≡ false
      → is_in gate ts ≡ true
  visits_gate s [] h c out = cc
  visits_gate s (t ∷ ts) h c out =
      visits_gate_from s t ts (inside t) refl (λ i. visits_gate t ts i c.1 out) h c.0

-- Not yet approved; not yet handed to the broker; never acknowledged with a fill; never closed.
abbrev pub unapproved : TradeIntentState → Bool
unapproved s = is_in s (proposed ∷ rejected ∷ [])

abbrev pub unsubmitted : TradeIntentState → Bool
unsubmitted s = is_in s (proposed ∷ rejected ∷ approved ∷ failed ∷ [])

abbrev pub without_fill : TradeIntentState → Bool
without_fill s =
    not (is_in s (acknowledged ∷ partially_filled ∷ filled ∷ position_opened ∷ closed ∷ []))

abbrev pub without_full_fill : TradeIntentState → Bool
without_full_fill s = not (is_in s (filled ∷ closed ∷ []))

approval_gate :
    (s t : TradeIntentState)
    → unapproved s ≡ true
    → Allowed s t
    → unapproved t ≡ false
    → t ≡ approved
unfolding check_transition is_in
approval_gate s t h a out = ground arith

submission_gate :
    (s t : TradeIntentState)
    → unsubmitted s ≡ true
    → Allowed s t
    → unsubmitted t ≡ false
    → t ≡ submitted
unfolding check_transition is_in
submission_gate s t h a out = ground arith

acknowledgement_gate :
    (s t : TradeIntentState)
    → without_fill s ≡ true
    → Allowed s t
    → without_fill t ≡ false
    → t ≡ acknowledged
unfolding check_transition is_in
acknowledgement_gate s t h a out = ground arith

fill_gate :
    (s t : TradeIntentState)
    → without_full_fill s ≡ true
    → Allowed s t
    → without_full_fill t ≡ false
    → t ≡ filled
unfolding check_transition is_in
fill_gate s t h a out = ground arith

-- On every course of allowed transitions that a proposed intent can take: once it is in any state
-- but PROPOSED and REJECTED it has been APPROVED; once it is in any state but those, APPROVED and
-- FAILED it has been SUBMITTED; a state with a fill, an open position or CLOSED comes after
-- ACKNOWLEDGED; and FILLED or CLOSED comes after FILLED.
pub course_gates :
    (ts : List TradeIntentState)
    → IsCourse proposed ts
    → (unapproved (end proposed ts) ≡ false → is_in approved ts ≡ true)
      × (unsubmitted (end proposed ts) ≡ false → is_in submitted ts ≡ true)
      × (without_fill (end proposed ts) ≡ false → is_in acknowledged ts ≡ true)
      × (without_full_fill (end proposed ts) ≡ false → is_in filled ts ≡ true)
unfolding is_in
course_gates ts c = (
  visits_gate unapproved approved approval_gate proposed ts refl c,
  visits_gate unsubmitted submitted submission_gate proposed ts refl c,
  visits_gate without_fill acknowledged acknowledgement_gate proposed ts refl c,
  visits_gate without_full_fill filled fill_gate proposed ts refl c,
)

-- From every state some course of allowed transitions ends in a terminal state.
pub terminal_reachable :
    (s : TradeIntentState)
    → (ts : List TradeIntentState) × IsCourse s ts × (is_in (end s ts) terminal_states ≡ true)
unfolding check_transition is_in
terminal_reachable proposed = (rejected ∷ [], (refl, tt), refl)
terminal_reachable approved = (failed ∷ [], (refl, tt), refl)
terminal_reachable filled = (closed ∷ [], (refl, tt), refl)
terminal_reachable rejected = ([], tt, refl)
terminal_reachable closed = ([], tt, refl)
terminal_reachable failed = ([], tt, refl)
terminal_reachable cancelled = ([], tt, refl)
terminal_reachable forced_reconciliation_close = ([], tt, refl)
terminal_reachable _ = (forced_reconciliation_close ∷ [], (refl, tt), refl)
