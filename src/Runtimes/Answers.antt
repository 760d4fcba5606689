-- ===== src/Runtimes/Answers.antt =====
-- The answers of the manager of engines (backend/app/core/runtime.py), and what they say of the lives
-- of its engines.
use codex_trading_app.Prelude.{
  ℕ, String, str_eq, eq_iff, ◌≡◌, refl, sym, ◌∙◌, ◌↔◌, ◌≢◌, Bool, true, not, Option, none, some,
  List, any, Attempt, ok, raised, raised_never_ok, inl, inr, Bool-cases, if◌then◌else◌,
}
use codex_trading_app.Runtimes.Strategy.{PriceUpdate, Strategies}
use codex_trading_app.Runtimes.Registry.{RuntimeError, Registered, already_running, nothing_named}
use codex_trading_app.Runtimes.Engine.{TradingEngine}
use codex_trading_app.Runtimes.Manager.{
  RuntimeKey, is_same_key, key_matches, StrategyRuntimeManager, StartRequest, key_of, empty_manager,
  build_engine, start, stop, stop_matching, process_price, get_engine,
}
use codex_trading_app.Runtimes.Calls.{ManagerCall, run_calls, stops, follow_calls}
use codex_trading_app.Runtimes.Keys.{
  is_same_key_refl, entry_of, entry_of-none, entry_of-any, entry_of-some,
}
use codex_trading_app.Runtimes.Lives.{Attempt-cases, matches_name, run_calls_follows}

abbrev pub IsRefused : {E A : Type 0} → Attempt E A → Type 0
IsRefused {E} answer = (problem : E) × (answer ≡ raised problem)

abbrev pub answer_of : {E A B : Type 0} → Attempt E (A × B) → Attempt E A
answer_of (raised problem) = raised problem
answer_of (ok (answer, after)) = ok answer

some_never_none : {A : Type 0} {a : A} → some a ≢ none
some_never_none h = cc

module _ {E A B : Type 0} (es : List (RuntimeKey × A)) (life : RuntimeKey → Option A)
    (follows : (key : RuntimeKey) → entry_of key es ≡ life key) where
  -- A call that is refused unless the key of some entry passes a test.
  IsRefused-iff :
      (t : RuntimeKey → Bool) (P : RuntimeKey → Type 0) (problem : E) (answer : B)
      → ((key : RuntimeKey) → (t key ≡ true) ↔ P key)
      → IsRefused (if not (any (λ e. t (e.0)) es) then raised problem else ok answer)
        ↔ ((key : RuntimeKey) → P key → life key ≡ none)
  IsRefused-iff t P problem answer tested = elim (Bool-cases (any (λ e. t (e.0)) es)) [
    | inl heard ↦
        let (key, passes, a, found) = entry_of-any t es heard in
        (
          λ refusal. absurd (raised_never_ok (sym (rw heard at refusal).1)),
          λ empty.
              absurd
                (some_never_none (sym found ∙ follows key ∙ empty key ((tested key).0 passes))),
        )
    | inr silent ↦ (
      λ refusal key p. sym (follows key) ∙ entry_of-none t key es silent ((tested key).1 p),
      λ empty. (problem, rw silent refl),
    )
  ]

module _ (st : Strategies) where
  open st use {F, State}

  -- What a start answers, by the engine of its key.
  abbrev pub start_answer :
      ℕ
      → List (Registered F State)
      → StartRequest st
      → Option (TradingEngine st)
      → Attempt RuntimeError (TradingEngine st)
  start_answer now registry r none = build_engine st now r registry
  start_answer now registry r (some engine) = raised (already_running r.strategy_name r.instrument)

  module _ (registry : List (Registered F State)) (m : StrategyRuntimeManager st)
      (life : RuntimeKey → Option (TradingEngine st))
      (follows : (key : RuntimeKey) → get_engine st key m ≡ life key) where
    start_answers :
        (now : ℕ) (r : StartRequest st)
        → answer_of (start st now registry r m) ≡ start_answer now registry r (life (key_of st r))
    unfolding start get_engine
    start_answers now r =
        let key = key_of st r in
        elim (Bool-cases (any (λ e. is_same_key (e.0) key) m.engines)) [
          | inl running ↦
              let (e, found) = entry_of-some key key m.engines running (is_same_key_refl key) in
              rw (running, sym (follows key) ∙ found) refl
          | inr free ↦
              let absent =
                entry_of-none (λ k. is_same_key k key) key m.engines free (is_same_key_refl key) in
              elim (Attempt-cases (build_engine st now r registry)) [
                | inl (problem, failed) ↦ rw (free, failed, sym (follows key) ∙ absent, failed) refl
                | inr (e, done) ↦ rw (free, done, sym (follows key) ∙ absent, done) refl
              ]
        ]

    stop-IsRefused :
        (now : ℕ) (s i : Option String)
        → IsRefused (stop st now s i m)
          ↔ ((key : RuntimeKey) → stops s i key ≡ true → life key ≡ none)
    unfolding stop stop_matching get_engine
    stop-IsRefused now none none = (λ refusal key named. cc, λ empty. (nothing_named, refl))
    stop-IsRefused now none (some i) =
        IsRefused-iff m.engines life follows (key_matches none (some i)) _ _ _
          (λ key. (λ h. h, λ h. h))
    stop-IsRefused now (some s) none =
        IsRefused-iff m.engines life follows (key_matches (some s) none) _ _ _
          (λ key. (λ h. sym (matches_name s key) ∙ h, λ h. matches_name s key ∙ h))
    stop-IsRefused now (some s) (some i) =
        IsRefused-iff m.engines life follows (key_matches (some s) (some i)) _ _ _
          (λ key. (λ h. h, λ h. h))

    price-IsRefused :
        (now later : ℕ) (u : PriceUpdate F)
        → IsRefused (process_price st now later u m)
          ↔ ((key : RuntimeKey) → key.instrument ≡ u.instrument → life key ≡ none)
    unfolding process_price get_engine
    price-IsRefused now later u =
        IsRefused-iff m.engines life follows (λ k. str_eq k.instrument u.instrument) _ _ _
          (λ key. eq_iff key.instrument u.instrument)

  -- The manager is a map from keys to engines: after any calls from the empty manager, with any
  -- assignments in between, the engine of a key is what the calls make of there being none, each by
  -- what it does to that key alone. A start builds an engine where none runs under the key and
  -- changes nothing else; a stop removes the engines that its names select; a price changes the
  -- engines of its instrument; cached prices, errors and calls that raise change no engine. The
  -- answers go by the same lives: a start raises that the key is already running where its life has
  -- an engine, and otherwise answers with the engine that is built or with the error of building it;
  -- a stop is refused just when no key that its names select has an engine, so always when it names
  -- nothing; and a price is refused just when no key of its instrument has one.
  pub manager_as_map :
      (registry : List (Registered F State)) (calls : List (ManagerCall st)) (key : RuntimeKey)
      (now later : ℕ) (r : StartRequest st) (s i : Option String) (u : PriceUpdate F)
      → (get_engine st key (run_calls st registry calls (empty_manager st))
          ≡ follow_calls st registry key calls none)
        × (answer_of (start st now registry r (run_calls st registry calls (empty_manager st)))
            ≡ start_answer now registry r (follow_calls st registry (key_of st r) calls none))
        × (IsRefused (stop st now s i (run_calls st registry calls (empty_manager st))) ↔ (
            (k : RuntimeKey) → stops s i k ≡ true → follow_calls st registry k calls none ≡ none))
        × (IsRefused (process_price st now later u (run_calls st registry calls (empty_manager st)))
            ↔ ((k : RuntimeKey)
                → k.instrument ≡ u.instrument
                → follow_calls st registry k calls none ≡ none))
  unfolding get_engine
  manager_as_map registry calls key now later r s i u =
      let m = run_calls st registry calls (empty_manager st) in
      let life = λ (k : RuntimeKey). follow_calls st registry k calls none in
      let follows = λ (k : RuntimeKey). run_calls_follows st registry k calls (empty_manager st) in
      (
        follows key,
        start_answers registry m life follows now r,
        stop-IsRefused registry m life follows now s i,
        price-IsRefused registry m life follows now later u,
      )
