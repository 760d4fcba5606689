-- ===== src/Lifecycle/Executions/Table.antt =====
-- What the transition table of execution attempts says, against the sets of statuses that
-- backend/app/services/lifecycle_rules.py names.
use codex_trading_app.Prelude.{
  ℕ, suc, ◌+◌, ◌≤◌, ◌<◌, ◌==◌, if◌then◌else◌, ◌≡◌, refl, true, false, List, [], ◌∷◌, arith, ok,
  returned_first, ◌↔◌, ◌⊎◌, inl, inr,
}
use codex_trading_app.Lifecycle.ExecutionStatus.{
  ExecutionStatus, submission_pending, order_submitted, order_acknowledged, fill_partial, fill_full,
  position_opened, close_confirmed, failed, cancelled, needs_manual_review, is_in, place,
}
use codex_trading_app.Lifecycle.Executions.{
  legacy_compatibility_statuses, terminal_statuses, StatusInput, check_new, check_transition,
  validate_new_execution_status, validate_execution_transition, parse_execution_status,
}

abbrev pub Allowed : ExecutionStatus → ExecutionStatus → Type 0
Allowed s t = check_transition s t ≡ ok t

-- What a successful validation of a transition has found.
pub record Validated (c t : StatusInput) (r : ExecutionStatus) : Type 0 where
  pub current : ExecutionStatus
  pub parsed_current : parse_execution_status c ≡ ok current
  pub parsed_target : parse_execution_status t ≡ ok r
  pub allowed : Allowed current r
  pub not_legacy : is_in r legacy_compatibility_statuses ≡ false
  pub from_written : is_in current legacy_compatibility_statuses ≡ false

written_target :
    (t r : ExecutionStatus)
    → check_new t ≡ ok r
    → (t ≡ r) × (is_in r legacy_compatibility_statuses ≡ false)
unfolding check_new is_in
written_target t r h = ground arith

allowed_result : (s t r : ExecutionStatus) → check_transition s t ≡ ok r → t ≡ r
unfolding check_transition
allowed_result s t r h = ground arith

written_source :
    (s t : ExecutionStatus) → Allowed s t → is_in s legacy_compatibility_statuses ≡ false
unfolding check_transition is_in
written_source s t h = ground arith

-- Whatever texts or members are given: when the validation of a transition returns a status, both
-- inputs parse, the result is the parsed target, the table allows the transition, and neither its
-- source nor its target is one of the four legacy statuses.
pub validation_never_legacy :
    (c t : StatusInput) (r : ExecutionStatus)
    → validate_execution_transition c t ≡ ok r
    → Validated c t r
unfolding validate_execution_transition validate_new_execution_status
validation_never_legacy c t r h =
    let (current, parsed, h₁) = returned_first (parse_execution_status c) _ h in
    let (given, new, h₂) =
      returned_first (validate_new_execution_status t) (check_transition current) h₁ in
    let (target, parsed_target, h₃) = returned_first (parse_execution_status t) check_new new in
    let (same, not_legacy) = written_target target given h₃ in
    let result = allowed_result current given r h₂ in
    record {
      current = current;
      parsed_current = parsed;
      parsed_target = rw (← result, ← same) parsed_target;
      allowed = rw result at h₂;
      not_legacy = rw result at not_legacy;
      from_written = written_source current given (rw (← result) at h₂);
    }

abbrev pub IsStuck : ExecutionStatus → Type 0
IsStuck s = (t : ExecutionStatus) → Allowed s t → s ≡ t

pub terminal_absorbs :
    (s : ExecutionStatus) → is_in s terminal_statuses ≡ true → Allowed s s × IsStuck s
unfolding check_transition is_in
terminal_absorbs s h = (ground arith, λ t a. ground arith)

absorbing_terminal :
    (s : ExecutionStatus) → Allowed s s → IsStuck s → is_in s terminal_statuses ≡ true
unfolding check_transition is_in
absorbing_terminal position_opened stays stuck = refl
absorbing_terminal close_confirmed stays stuck = refl
absorbing_terminal failed stays stuck = refl
absorbing_terminal cancelled stays stuck = refl
absorbing_terminal submission_pending stays stuck = cc (stuck failed refl)
absorbing_terminal _ stays stuck = cc

-- A status is in EXECUTION_TERMINAL_STATUSES exactly when the validation lets an attempt stay in
-- it and go nowhere else; a legacy status lets it go nowhere and does not let it stay.
pub terminal_iff_absorbing :
    (s : ExecutionStatus)
    → ((is_in s terminal_statuses ≡ true) ↔ (Allowed s s × IsStuck s))
      × (is_in s legacy_compatibility_statuses ≡ true → (t : ExecutionStatus) → ¬ (Allowed s t))
unfolding check_transition is_in
terminal_iff_absorbing s =
    ((terminal_absorbs s, λ h. absorbing_terminal s h.0 h.1), λ legacy t a. ground arith)

-- The statuses that an attempt takes one after another, each by an allowed transition.
abbrev pub IsCourse : ExecutionStatus → List ExecutionStatus → Type 0
IsCourse s [] = Unit
IsCourse s (t ∷ ts) = Allowed s t × IsCourse t ts

abbrev pub end : ExecutionStatus → List ExecutionStatus → ExecutionStatus
end s [] = s
end s (t ∷ ts) = end t ts

-- How far an attempt has come.
unfoldable pub stage : ExecutionStatus → ℕ
stage submission_pending = 0
stage order_submitted = 1
stage order_acknowledged = 2
stage fill_partial = 3
stage fill_full = 3
stage needs_manual_review = 4
stage _ = 5

pub stage-step : (s t : ExecutionStatus) → Allowed s t → (s ≡ t) ⊎ (stage s < stage t)
unfolding check_transition stage
stage-step s t a = ground arith

-- The statuses of a course that differ from the one before.
unfoldable pub changes : ExecutionStatus → List ExecutionStatus → ℕ
unfolding place
changes s [] = 0
changes s (t ∷ ts) = let rest = changes t ts in if place s == place t then rest else suc rest

place_self : (s : ExecutionStatus) → (place s == place s) ≡ true
unfolding place
place_self s = ground arith

changes-le-stage :
    (s : ExecutionStatus) (ts : List ExecutionStatus)
    → IsCourse s ts
    → changes s ts + stage s ≤ stage (end s ts)
unfolding changes
changes-le-stage s [] c = omega arith
changes-le-stage s (t ∷ ts) c = elim (stage-step s t c.0) [
  | inl same ↦ rw same (rw place_self (changes-le-stage t ts c.1))
  | inr later ↦ ground (arith, changes-le-stage t ts c.1)
]

pub stage-le-five : (s : ExecutionStatus) → stage s ≤ 5
unfolding stage
stage-le-five s = ground arith

-- An execution attempt settles: on any course of allowed transitions from SUBMISSION_PENDING,
-- however long, the status changes at most five times.
pub course_settles :
    (ts : List ExecutionStatus) → IsCourse submission_pending ts → changes submission_pending ts ≤ 5
course_settles ts c =
    omega
      (arith, changes-le-stage submission_pending ts c, stage-le-five (end submission_pending ts))
