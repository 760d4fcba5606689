-- ===== src/Runtimes/Owned.antt =====
-- Every engine runs the strategy and the instrument of its key (backend/app/core/runtime.py).
use codex_trading_app.Prelude.{
  ℕ, String, eq_iff, ◌≡◌, sym, ap, ◌∙◌, Bool, Option, some, List, [], ◌∷◌, All, filter, map, ok,
  ok-injective, raised_never_ok, returned_first, inl, inr, Bool-cases, Option-cases,
}
use mathlib.Core.Path.{subst}
use codex_trading_app.Prelude.Rows.{find_first}
use codex_trading_app.Redaction.Payload.{Fields}
use codex_trading_app.Runtimes.Strategy.{PriceUpdate, Strategies, Strategy}
use codex_trading_app.Runtimes.Registry.{Registered, registered, is_named, create, WellNamed}
use codex_trading_app.Runtimes.Engine.{TradingEngine}
use codex_trading_app.Runtimes.Signals.{process_price_update-Answers}
use codex_trading_app.Runtimes.Manager.{
  RuntimeKey, is_same_key, set_engine, StrategyRuntimeManager, update_engines, is_for,
}
use codex_trading_app.Runtimes.Calls.{written}

module _ {F St : Type 0} where
  found-WellNamed :
      (name : String) (registry : List (Registered F St)) (r : Registered F St)
      → WellNamed registry
      → find_first (is_named name) registry ≡ some r
      → r.factory.name ≡ name
  unfolding find_first
  found-WellNamed name [] r named h = cc
  found-WellNamed name (o ∷ registry) r (first, rest) h = elim (Bool-cases (is_named name o)) [
    | inl here ↦
        let found : some o ≡ some r = rw here at h in
        let same : o ≡ r = cc in
        subst (λ x. x.factory.name ≡ name) same (first ∙ (eq_iff o.metadata.name name).0 here)
    | inr later ↦ found-WellNamed name registry r rest (rw later at h)
  ]

  pub created_name :
      (name : String) (kwargs : Fields F) (registry : List (Registered F St)) (s : Strategy St)
      → WellNamed registry
      → create name kwargs registry ≡ ok s
      → s.name ≡ name
  unfolding create registered
  created_name name kwargs registry s named h =
      elim (Option-cases (find_first (is_named name) registry)) [
        | inl none_found ↦ absurd (raised_never_ok (rw none_found at h))
        | inr (r, found) ↦
            let (state, constructed, made) =
              returned_first (r.factory.construct kwargs) _ (rw found at h) in
            ap (λ (strategy : Strategy St). strategy.name) (sym (ok-injective made))
            ∙ found-WellNamed name registry r named found
      ]

module _ (st : Strategies) where
  open st use {F, Position, State}

  abbrev pub Owned : RuntimeKey × TradingEngine st → Type 0
  Owned (key, engine) =
      (engine.strategy.name ≡ key.strategy_name) × (engine.instrument ≡ key.instrument)

  abbrev pub AllOwned : StrategyRuntimeManager st → Type 0
  AllOwned m = All Owned m.engines

  pub engines_assigned :
      (k : RuntimeKey) (engine : TradingEngine st) (es : List (RuntimeKey × TradingEngine st))
      → All Owned es
      → Owned (k, engine)
      → All Owned (set_engine k engine es)
  unfolding set_engine
  engines_assigned k engine [] all one = (one, tt)
  engines_assigned k engine (x ∷ es) (first, rest) one = elim (Bool-cases (is_same_key (x.0) k)) [
    | inl same ↦ rw same (one, rest)
    | inr other ↦ rw other (first, engines_assigned k engine es rest one)
  ]

  pub engines_filtered :
      (p : RuntimeKey × TradingEngine st → Bool) (es : List (RuntimeKey × TradingEngine st))
      → All Owned es
      → All Owned (filter p es)
  engines_filtered p [] all = tt
  engines_filtered p (e ∷ es) (first, rest) = elim (Bool-cases (p e)) [
    | inl kept ↦ rw kept (first, engines_filtered p es rest)
    | inr dropped ↦ rw dropped (engines_filtered p es rest)
  ]

  pub engines_written :
      (k : RuntimeKey) (position : Option Position) (mode : String) (state : State)
      (es : List (RuntimeKey × TradingEngine st))
      → All Owned es
      → All Owned (map (written st k position mode state) es)
  engines_written k position mode state [] all = tt
  engines_written k position mode state (e ∷ es) (first, rest) =
      elim (Bool-cases (is_same_key (e.0) k)) [
        | inl same ↦ rw same (first, engines_written k position mode state es rest)
        | inr other ↦ rw other (first, engines_written k position mode state es rest)
      ]

  pub engines_updated :
      (later : ℕ) (update : PriceUpdate F) (es : List (RuntimeKey × TradingEngine st))
      → All Owned es
      → All Owned (update_engines st later update es).1
  unfolding update_engines
  engines_updated later update [] all = tt
  engines_updated later update (e ∷ es) (first, rest) =
      let (sound, (name, instrument, mode, active, position)) =
        process_price_update-Answers st later update (e.1) in
      elim (Bool-cases (is_for st update.instrument e)) [
        | inl hears ↦
            rw hears ((name ∙ first.0, instrument ∙ first.1), engines_updated later update es rest)
        | inr deaf ↦ rw deaf (first, engines_updated later update es rest)
      ]
