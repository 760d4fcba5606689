-- ===== src/Runtimes/Traces.antt =====
-- The signals that the manager of engines hands on, after any calls (backend/app/core/runtime.py).
use codex_trading_app.Prelude.{
  ℕ, String, ◌≡◌, refl, ◌∙◌, not, Option, none, some, List, [], ◌∷◌, any, All, ok, returned_first,
  ok-injective, raised_never_ok, eq_iff, inl, inr, Bool-cases,
}
use mathlib.Core.Path.{subst}
use codex_trading_app.Runtimes.Strategy.{PriceUpdate, Strategies, Strategy}
use codex_trading_app.Runtimes.Registry.{Registered, ResolvedStrategyProfile, create, WellNamed}
use codex_trading_app.Runtimes.Engine.{TradingEngine, start_engine}
use codex_trading_app.Runtimes.Signals.{SoundSignal, process_price_update-Answers}
use codex_trading_app.Runtimes.Manager.{
  RuntimeKey, is_same_key, key_matches, StrategyRuntimeManager, EngineUpdateResult, StartRequest,
  key_of, empty_manager, new_engine, build_engine, start, resolve_with_parameters, stop,
  stop_matching, update_engines, process_price, is_for, set_price_error, load_cached_price,
}
use codex_trading_app.Runtimes.Calls.{
  ManagerCall, starting, stopping, pricing, failing, caching, writing, manager_after, perform_call,
  run_calls, heard_update,
}
use codex_trading_app.Runtimes.Lives.{Attempt-cases}
use codex_trading_app.Runtimes.Owned.{
  Owned, AllOwned, created_name, engines_assigned, engines_filtered, engines_written,
  engines_updated,
}

module _ (st : Strategies) where
  open st use {F, Position, State}

  new_engine-Owned :
      (now : ℕ) (r : StartRequest st) (profile : ResolvedStrategyProfile F) (s : Strategy State)
      → s.name ≡ r.strategy_name
      → Owned st (key_of st r, new_engine st now r profile s)
  unfolding start_engine
  new_engine-Owned now r profile s named = elim (Bool-cases r.activate) [
    | inl active ↦ rw active (named, refl)
    | inr idle ↦ rw idle (named, refl)
  ]

  module _ (registry : List (Registered F State)) (named : WellNamed registry) where
    build_engine-Owned :
        (now : ℕ) (r : StartRequest st) (e : TradingEngine st)
        → build_engine st now r registry ≡ ok e
        → Owned st (key_of st r, e)
    unfolding build_engine
    build_engine-Owned now r e h =
        let (profile, resolved, rest) =
          returned_first
            (resolve_with_parameters st r.strategy_name r.profile_name r.strategy_parameters
              registry)
            _ h in
        let (s, created, last) =
          returned_first (create r.strategy_name profile.constructor_kwargs registry) _ rest in
        subst (λ x. Owned st (key_of st r, x)) (ok-injective last)
          (new_engine-Owned now r profile s
            (created_name r.strategy_name profile.constructor_kwargs registry s named created))

    start-AllOwned :
        (now : ℕ) (r : StartRequest st) (m : StrategyRuntimeManager st)
        → AllOwned st m
        → AllOwned st (manager_after st m (start st now registry r m))
    unfolding start
    start-AllOwned now r m all =
        elim (Bool-cases (any (λ e. is_same_key (e.0) (key_of st r)) m.engines)) [
          | inl running ↦ rw running all
          | inr free ↦ elim (Attempt-cases (build_engine st now r registry)) [
            | inl (problem, failed) ↦ rw (free, failed) all
            | inr (e, done) ↦
                rw (free, done)
                  (engines_assigned st (key_of st r) e m.engines all
                    (build_engine-Owned now r e done))
          ]
        ]

    stop_matching-AllOwned :
        (now : ℕ) (s i : Option String) (m : StrategyRuntimeManager st)
        → AllOwned st m
        → AllOwned st (manager_after st m (stop_matching st now s i m))
    unfolding stop_matching
    stop_matching-AllOwned now s i m all =
        elim (Bool-cases (any (λ e. key_matches s i (e.0)) m.engines)) [
          | inl running ↦
              rw running (engines_filtered st (λ e. not (key_matches s i (e.0))) m.engines all)
          | inr silent ↦ rw silent all
        ]

    process_price-AllOwned :
        (now later : ℕ) (u : PriceUpdate F) (m : StrategyRuntimeManager st)
        → AllOwned st m
        → AllOwned st (manager_after st m (process_price st now later u m))
    unfolding process_price
    process_price-AllOwned now later u m all =
        elim (Bool-cases (any (is_for st u.instrument) m.engines)) [
          | inl heard ↦
              rw heard (engines_updated st later (heard_update st registry later u) m.engines all)
          | inr silent ↦ rw silent all
        ]

    perform_call-AllOwned :
        (c : ManagerCall st) (m : StrategyRuntimeManager st)
        → AllOwned st m
        → AllOwned st (perform_call st registry c m)
    unfolding perform_call stop set_price_error load_cached_price
    perform_call-AllOwned (starting now r) m all = start-AllOwned now r m all
    perform_call-AllOwned (stopping now none none) m all = all
    perform_call-AllOwned (stopping now none (some i)) m all =
        stop_matching-AllOwned now none (some i) m all
    perform_call-AllOwned (stopping now (some s) none) m all =
        stop_matching-AllOwned now (some s) none m all
    perform_call-AllOwned (stopping now (some s) (some i)) m all =
        stop_matching-AllOwned now (some s) (some i) m all
    perform_call-AllOwned (pricing now later u) m all = process_price-AllOwned now later u m all
    perform_call-AllOwned (failing instrument error) m all = all
    perform_call-AllOwned (caching instrument none updated_at) m all = all
    perform_call-AllOwned (caching instrument (some price) updated_at) m all = all
    perform_call-AllOwned (writing k position mode state) m all =
        engines_written st k position mode state m.engines all

    run_calls-AllOwned :
        (calls : List (ManagerCall st)) (m : StrategyRuntimeManager st)
        → AllOwned st m
        → AllOwned st (run_calls st registry calls m)
    unfolding run_calls
    run_calls-AllOwned [] m all = all
    run_calls-AllOwned (c ∷ calls) m all =
        run_calls-AllOwned calls (perform_call st registry c m) (perform_call-AllOwned c m all)

  -- A result of a price: the engine is that of its key, for the instrument of the price, and the signal
  -- is sound.
  abbrev pub SoundResult : PriceUpdate F → EngineUpdateResult st → Type 0
  SoundResult update result =
      Owned st (result.key, result.engine)
      × (result.key.instrument ≡ update.instrument)
      × SoundSignal st update result.engine result.signal

  update_engines-SoundResult :
      (later : ℕ) (update : PriceUpdate F) (es : List (RuntimeKey × TradingEngine st))
      → All (Owned st) es
      → All (SoundResult update) (update_engines st later update es).0
  unfolding update_engines
  update_engines-SoundResult later update [] all = tt
  update_engines-SoundResult later update (e ∷ es) (first, rest) =
      let (sound, (name, instrument, mode, active, position)) =
        process_price_update-Answers st later update (e.1) in
      elim (Bool-cases (is_for st update.instrument e)) [
        | inl hears ↦ rw hears (
          (
            (name ∙ first.0, instrument ∙ first.1),
            (eq_iff (e.0).instrument update.instrument).0 hears,
            sound,
          ),
          update_engines-SoundResult later update es rest,
        )
        | inr deaf ↦ rw deaf (update_engines-SoundResult later update es rest)
      ]

  -- After any calls from the empty manager, with any assignments to engines in between, where every
  -- strategy is registered under its own name: each result of a price is of an engine that runs the
  -- strategy and the instrument of its key, which is the instrument of the price; an entry in it names
  -- this strategy and instrument and the price, asks for no size, and comes from an active engine that
  -- has no position and is not in EXITS_ONLY; an exit names the same and carries the position that the
  -- active engine holds.
  pub signals_sound :
      (registry : List (Registered F State)) (calls : List (ManagerCall st)) (now later : ℕ)
      (update : PriceUpdate F) (results : List (EngineUpdateResult st))
      (after : StrategyRuntimeManager st)
      → WellNamed registry
      → process_price st now later update (run_calls st registry calls (empty_manager st))
        ≡ ok (results, after)
      → All (SoundResult update) results
  unfolding process_price
  signals_sound registry calls now later update results after named done =
      let m = run_calls st registry calls (empty_manager st) in
      let all = run_calls-AllOwned registry named calls (empty_manager st) tt in
      let sound =
        update_engines-SoundResult later (heard_update st registry later update) m.engines all in
      elim (Bool-cases (any (is_for st update.instrument) m.engines)) [
        | inl heard ↦
            subst
              (λ (x : List (EngineUpdateResult st) × StrategyRuntimeManager st).
                All (SoundResult update) (x.0))
              (ok-injective (rw heard at done)) sound
        | inr silent ↦ absurd (raised_never_ok (rw silent at done))
      ]
