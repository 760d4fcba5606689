-- ===== src/Allocation/Whole.antt =====
-- Whole numbers in the place of Python's floats, for runs at concrete inputs.
use Prim.Native.Nat.{◌/◌}
use codex_trading_app.Prelude.{◌+◌, ◌*◌, ◌-◌, ℕ, str_eq, ltb, leb, ◌==◌, if◌then◌else◌}
use codex_trading_app.Allocation.Floats.{Floats}

abbrev pub whole : Floats
whole = record {
  F = ℕ;
  literal = λ text.
      if str_eq text "0.0"
      then 0
      else if str_eq text "0"
      then 0
      else if str_eq text "100.0"
      then 100
      else 1;
  add = λ a b. a + b;
  sub = λ a b. a - b;
  mul = λ a b. a * b;
  div = λ a b. a / b;
  neg = λ a. 1000 - a;
  abs = λ a. a;
  lt = ltb;
  le = leb;
  eq = λ a b. a == b;
  round = λ a digits. a;
  floor = λ a. a;
  of_ℕ = λ n. n;
  total_seconds = λ earlier later. later - earlier;
}
