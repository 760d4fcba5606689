-- ===== src/Allocation/Floats.antt =====
-- Python's floats: a type and its operations, with no law assumed. Everything proved of the
-- allocator holds whatever the rounding is.
use codex_trading_app.Prelude.{ℕ, String, Bool, Option, none, some, if◌then◌else◌}

pub record Floats : Type 1 where
  pub F : Type 0
  -- `float(text)`, for the constants of the source.
  pub literal : String → F
  pub add : F → F → F
  pub sub : F → F → F
  pub mul : F → F → F
  pub div : F → F → F
  pub neg : F → F
  pub abs : F → F
  pub lt : F → F → Bool
  pub le : F → F → Bool
  pub eq : F → F → Bool
  -- `round(x, digits)` and `floor(x)`.
  pub round : F → ℕ → F
  pub floor : F → F
  pub of_ℕ : ℕ → F
  -- `(later - earlier).total_seconds()`, on instants.
  pub total_seconds : ℕ → ℕ → F

module _ (fl : Floats) where
  open fl use {F, literal, lt, eq}

  -- The built-in `max(a, b)` and `min(a, b)`: the first argument unless the second beats it.
  unfoldable pub max : F → F → F
  max a b = if lt a b then b else a

  unfoldable pub min : F → F → F
  min a b = if lt b a then b else a

  -- `value or default`: a zero is false too.
  unfoldable pub or_float : Option F → F → F
  or_float none default = default
  or_float (some x) default = if eq x (literal "0.0") then default else x

  -- `float(x) if x is not None else default`
  unfoldable pub float_or : Option F → F → F
  float_or none default = default
  float_or (some x) default = x
