-- ===== src/Runtimes/Lives.antt =====
-- The manager of engines (backend/app/core/runtime.py) as a map from keys to engines.
use codex_trading_app.Prelude.{
  ℕ, true, false, String, str_eq, ◌≡◌, refl, ap, ◌∙◌, Option, none, some, List, [], ◌∷◌, any, map,
  Attempt, ok, raised, arith, ◌⊎◌, inl, inr, Bool-cases, if◌then◌else◌,
}
use codex_trading_app.Runtimes.Strategy.{PriceUpdate, Strategies}
use codex_trading_app.Runtimes.Registry.{Registered}
use codex_trading_app.Runtimes.Engine.{TradingEngine, process_price_update}
use codex_trading_app.Runtimes.Manager.{
  RuntimeKey, is_same_key, key_matches, StrategyRuntimeManager, StartRequest, key_of, build_engine,
  start, stop, stop_matching, update_engines, process_price, get_engine, is_for, set_price_error,
  load_cached_price,
}
use codex_trading_app.Runtimes.Calls.{
  ManagerCall, starting, stopping, pricing, failing, caching, writing, written_engine,
  manager_after, perform_call, run_calls, heard_update, stops, follow_call, follow_calls,
}
use codex_trading_app.Runtimes.Keys.{
  is_same_key-sym, entry_of, entry_of-none, entry_of-set_engine, entry_of-some, entry_of-filter,
  amended, entry_of-amended,
}

pub Attempt-cases :
    {E A : Type 0} (answer : Attempt E A)
    → ((problem : E) × (answer ≡ raised problem)) ⊎ ((a : A) × (answer ≡ ok a))
Attempt-cases (raised problem) = inl (problem, refl)
Attempt-cases (ok a) = inr (a, refl)

pub matches_name :
    (s : String) (key : RuntimeKey) → key_matches (some s) none key ≡ stops (some s) none key
matches_name s key = ground arith

module _ (st : Strategies) where
  open st use {F, Position, State}

  abbrev Entries : Type 0
  Entries = List (RuntimeKey × TradingEngine st)

  abbrev heard_by : ℕ → PriceUpdate F → TradingEngine st → TradingEngine st
  heard_by later update e = (process_price_update st later update e).1

  update_engines-amended :
      (later : ℕ) (update : PriceUpdate F) (es : Entries)
      → (update_engines st later update es).1
        ≡ map (amended (λ k. str_eq k.instrument update.instrument) (heard_by later update)) es
  unfolding update_engines
  update_engines-amended later update [] = refl
  update_engines-amended later update (e ∷ es) =
      let rest = update_engines-amended later update es in
      elim (Bool-cases (str_eq (e.0).instrument update.instrument)) [
        | inl hears ↦ rw (hears, rest) refl
        | inr deaf ↦ rw (deaf, rest) refl
      ]

  module _ (registry : List (Registered F State)) (key : RuntimeKey)
      (m : StrategyRuntimeManager st) where
    abbrev Follows : ManagerCall st → Type 0
    Follows c =
        get_engine st key (perform_call st registry c m)
        ≡ follow_call st registry key c (get_engine st key m)

    absent_if_free :
        (r : StartRequest st)
        → any (λ e. is_same_key (e.0) (key_of st r)) m.engines ≡ false
        → is_same_key (key_of st r) key ≡ true
        → entry_of key m.engines ≡ none
    absent_if_free r free same =
        entry_of-none (λ k. is_same_key k (key_of st r)) key m.engines free
          (is_same_key-sym (key_of st r) key same)

    starting-Follows : (now : ℕ) (r : StartRequest st) → Follows (starting now r)
    unfolding perform_call follow_call start get_engine
    starting-Follows now r =
        elim (Bool-cases (any (λ e. is_same_key (e.0) (key_of st r)) m.engines)) [
          | inl running ↦ elim (Bool-cases (is_same_key (key_of st r) key)) [
            | inl same ↦
                let (e, found) = entry_of-some key (key_of st r) m.engines running same in
                rw (running, same, found) refl
            | inr other ↦ rw (running, other) refl
          ]
          | inr free ↦ elim (Attempt-cases (build_engine st now r registry)) [
            | inl (problem, failed) ↦ elim (Bool-cases (is_same_key (key_of st r) key)) [
              | inl same ↦
                  let absent = absent_if_free r free same in
                  rw (free, failed, same, absent, failed) refl
              | inr other ↦ rw (free, failed, other) refl
            ]
            | inr (e, done) ↦
                let assigned = entry_of-set_engine key (key_of st r) e m.engines in
                elim (Bool-cases (is_same_key (key_of st r) key)) [
                  | inl same ↦
                      rw (free, done, assigned, same, absent_if_free r free same, done) refl
                  | inr other ↦ rw (free, done, assigned, other) refl
                ]
          ]
        ]

    pricing-Follows : (now later : ℕ) (u : PriceUpdate F) → Follows (pricing now later u)
    unfolding perform_call follow_call process_price get_engine
    pricing-Follows now later u = elim (Bool-cases (any (is_for st u.instrument) m.engines)) [
      | inl heard ↦
          rw (heard, update_engines-amended later (heard_update st registry later u) m.engines)
            (entry_of-amended (λ k. str_eq k.instrument u.instrument)
              (heard_by later (heard_update st registry later u)) key m.engines)
      | inr silent ↦ elim (Bool-cases (str_eq key.instrument u.instrument)) [
        | inl hears ↦
            rw
              (
                silent,
                hears,
                entry_of-none (λ k. str_eq k.instrument u.instrument) key m.engines silent hears,
              )
              refl
        | inr deaf ↦ rw (silent, deaf) refl
      ]
    ]

    stop_matching_follows :
        (now : ℕ) (s i : Option String)
        → get_engine st key (manager_after st m (stop_matching st now s i m))
          ≡ (if key_matches s i key then none else get_engine st key m)
    unfolding stop_matching get_engine
    stop_matching_follows now s i = elim (Bool-cases (any (λ e. key_matches s i (e.0)) m.engines)) [
      | inl running ↦ rw running (entry_of-filter (key_matches s i) key m.engines)
      | inr silent ↦ elim (Bool-cases (key_matches s i key)) [
        | inl matches ↦
            rw (silent, matches, entry_of-none (key_matches s i) key m.engines silent matches) refl
        | inr stays ↦ rw (silent, stays) refl
      ]
    ]

    stopping-Follows : (now : ℕ) (s i : Option String) → Follows (stopping now s i)
    unfolding perform_call follow_call stop
    stopping-Follows now none none = refl
    stopping-Follows now none (some i) = stop_matching_follows now none (some i)
    stopping-Follows now (some s) none =
        stop_matching_follows now (some s) none
        ∙ ap (λ b. if b then none else get_engine st key m) (matches_name s key)
    stopping-Follows now (some s) (some i) = stop_matching_follows now (some s) (some i)

    writing-Follows :
        (k : RuntimeKey) (position : Option Position) (mode : String) (state : State)
        → Follows (writing k position mode state)
    unfolding perform_call follow_call get_engine
    writing-Follows k position mode state =
        entry_of-amended (λ l. is_same_key l k) (written_engine st position mode state) key
          m.engines

    caching-Follows :
        (instrument : String) (price : Option F) (updated_at : Option ℕ)
        → Follows (caching instrument price updated_at)
    unfolding perform_call follow_call load_cached_price get_engine
    caching-Follows instrument none updated_at = refl
    caching-Follows instrument (some price) updated_at = refl

    failing-Follows : (instrument error : String) → Follows (failing instrument error)
    unfolding perform_call follow_call set_price_error get_engine
    failing-Follows instrument error = refl

    perform_call-Follows : (c : ManagerCall st) → Follows c
    perform_call-Follows (starting now r) = starting-Follows now r
    perform_call-Follows (stopping now s i) = stopping-Follows now s i
    perform_call-Follows (pricing now later u) = pricing-Follows now later u
    perform_call-Follows (failing instrument error) = failing-Follows instrument error
    perform_call-Follows (caching instrument price updated_at) =
        caching-Follows instrument price updated_at
    perform_call-Follows (writing k position mode state) = writing-Follows k position mode state

  pub run_calls_follows :
      (registry : List (Registered F State)) (key : RuntimeKey) (calls : List (ManagerCall st))
      (m : StrategyRuntimeManager st)
      → get_engine st key (run_calls st registry calls m)
        ≡ follow_calls st registry key calls (get_engine st key m)
  unfolding run_calls follow_calls
  run_calls_follows registry key [] m = refl
  run_calls_follows registry key (c ∷ calls) m =
      run_calls_follows registry key calls (perform_call st registry c m)
      ∙ ap (follow_calls st registry key calls) (perform_call-Follows registry key m c)
