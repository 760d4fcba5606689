-- ===== src/Runtimes/Signals.antt =====
-- What the signals say that an engine emits (backend/app/core/trading_engine.py).
use codex_trading_app.Prelude.{
  ℕ, String, str_eq, ◌≡◌, refl, ◌∙◌, Bool, true, false, not, Option, none, some, inl, inr,
  Bool-cases, if◌then◌else◌,
}
use codex_trading_app.Redaction.Payload.{Payload, Fields, end, field}
use codex_trading_app.Trades.Executions.Record.{given_or}
use codex_trading_app.Runtimes.Strategy.{PriceUpdate, Strategies}
use codex_trading_app.Runtimes.Engine.{
  EntryProposal, EngineSignal, entry_signal, exit_signal, TradingEngine, apply_hint,
  apply_entry_signal_hints, enter_if, exit_if, ask_strategy, heard, raw_entry, process_price_update,
}

module _ (st : Strategies) where
  open st use {
    F, zero_size, Position, State, should_enter_trade, should_exit_trade, entry_direction,
    entry_signal_hints,
  }

  -- What the hints of a strategy leave as it is.
  abbrev pub Agree : EntryProposal st → EntryProposal st → Type 0
  Agree p q =
      (p.signal.strategy_name ≡ q.signal.strategy_name)
      × (p.signal.instrument ≡ q.signal.instrument)
      × (p.signal.observed_price ≡ q.signal.observed_price)
      × (p.signal.size ≡ q.signal.size)

  apply_hint-Agree :
      (key : String) (value : Payload F) (p : EntryProposal st)
      → Agree (apply_hint st key value p) p
  unfolding apply_hint
  apply_hint-Agree key value p = elim (Bool-cases (str_eq key "stop_loss_price")) [
    | inl h ↦ rw h (refl, refl, refl, refl)
    | inr a ↦ elim (Bool-cases (str_eq key "take_profit_price")) [
      | inl h ↦ rw (a, h) (refl, refl, refl, refl)
      | inr b ↦ elim (Bool-cases (str_eq key "expected_reward_risk")) [
        | inl h ↦ rw (a, b, h) (refl, refl, refl, refl)
        | inr c ↦ elim (Bool-cases (str_eq key "volatility_estimate")) [
          | inl h ↦ rw (a, b, c, h) (refl, refl, refl, refl)
          | inr d ↦ elim (Bool-cases (str_eq key "thesis")) [
            | inl h ↦ rw (a, b, c, d, h) (refl, refl, refl, refl)
            | inr h ↦ rw (a, b, c, d, h) (refl, refl, refl, refl)
          ]
        ]
      ]
    ]
  ]

  apply_entry_signal_hints-Agree :
      (hints : Fields F) (p : EntryProposal st) → Agree (apply_entry_signal_hints st hints p) p
  unfolding apply_entry_signal_hints
  apply_entry_signal_hints-Agree end p = (refl, refl, refl, refl)
  apply_entry_signal_hints-Agree (field key value hints) p =
      let (s, i, o, z) = apply_entry_signal_hints-Agree hints (apply_hint st key value p) in
      let (s', i', o', z') = apply_hint-Agree key value p in (s ∙ s', i ∙ i', o ∙ o', z ∙ z')

  -- A signal of an engine, for a price: an entry names the engine's strategy and instrument and the
  -- price, asks for no size, and comes from an active engine without a position that may enter; an exit
  -- names the same and the position that the active engine holds.
  abbrev pub SoundSignal : PriceUpdate F → TradingEngine st → Option (EngineSignal st) → Type 0
  SoundSignal update engine none = Unit
  SoundSignal update engine (some (entry_signal p)) =
      (p.signal.strategy_name ≡ engine.strategy.name)
      × (p.signal.instrument ≡ engine.instrument)
      × (p.signal.observed_price ≡ update.price)
      × (p.signal.size ≡ zero_size)
      × (engine.active ≡ true)
      × (engine.current_position ≡ none)
      × (str_eq engine.runtime_mode "EXITS_ONLY" ≡ false)
  SoundSignal update engine (some (exit_signal x)) =
      (x.strategy_name ≡ engine.strategy.name)
      × (x.instrument ≡ engine.instrument)
      × (x.observed_price ≡ update.price)
      × (engine.active ≡ true)
      × (engine.current_position ≡ some x.position)

  -- What a price leaves of an engine.
  abbrev pub Continues : TradingEngine st → TradingEngine st → Type 0
  Continues after engine =
      (after.strategy.name ≡ engine.strategy.name)
      × (after.instrument ≡ engine.instrument)
      × (after.runtime_mode ≡ engine.runtime_mode)
      × (after.active ≡ engine.active)
      × (after.current_position ≡ engine.current_position)

  abbrev pub Answers :
      PriceUpdate F → TradingEngine st → Option (EngineSignal st) × TradingEngine st → Type 0
  Answers update engine (signal, after) = SoundSignal update after signal × Continues after engine

  enter_if-Answers :
      (engine : TradingEngine st) (update : PriceUpdate F) (at : ℕ) (answer : Bool × State)
      → engine.active ≡ true
      → engine.current_position ≡ none
      → str_eq engine.runtime_mode "EXITS_ONLY" ≡ false
      → Answers update engine (enter_if st engine update at answer)
  unfolding enter_if
  enter_if-Answers engine update at (false, state) a p m = (tt, (refl, refl, refl, refl, refl))
  enter_if-Answers engine update at (true, state) a p m =
      let chosen = entry_direction state in
      let hinted = entry_signal_hints (chosen.1) in
      let (s, i, o, z) =
        apply_entry_signal_hints-Agree (hinted.0) (raw_entry st engine update at (chosen.0)) in
      ((s, i, o, z, a, p, m), (refl, refl, refl, refl, refl))

  exit_if-Answers :
      (engine : TradingEngine st) (update : PriceUpdate F) (at : ℕ) (position : Position)
      (answer : Bool × State)
      → engine.active ≡ true
      → engine.current_position ≡ some position
      → Answers update engine (exit_if st engine update at position answer)
  unfolding exit_if
  exit_if-Answers engine update at position (false, state) a p =
      (tt, (refl, refl, refl, refl, refl))
  exit_if-Answers engine update at position (true, state) a p =
      ((refl, refl, refl, a, p), (refl, refl, refl, refl, refl))

  ask_strategy-Answers :
      (engine : TradingEngine st) (update : PriceUpdate F) (at : ℕ) (position : Option Position)
      → engine.active ≡ true
      → engine.current_position ≡ position
      → Answers update engine (ask_strategy st engine update at position)
  unfolding ask_strategy
  ask_strategy-Answers engine update at (some position) a p =
      exit_if-Answers engine update at position (should_exit_trade engine.strategy.state) a p
  ask_strategy-Answers engine update at none a p =
      elim (Bool-cases (str_eq engine.runtime_mode "EXITS_ONLY")) [
        | inl only ↦ rw only (tt, (refl, refl, refl, refl, refl))
        | inr may ↦
            rw may
              (enter_if-Answers engine update at (should_enter_trade engine.strategy.state) a p may)
      ]

  by_activity :
      (now : ℕ) (update : PriceUpdate F) (engine : TradingEngine st) (active : Bool)
      → engine.active ≡ active
      → Answers update engine (
          let at = given_or update.received_at now in
          if not active
          then (none, engine)
          else ask_strategy st (heard st engine update at) update at engine.current_position)
  by_activity now update engine false a = (tt, (refl, refl, refl, refl, refl))
  by_activity now update engine true a =
      let at = given_or update.received_at now in
      ask_strategy-Answers (heard st engine update at) update at engine.current_position a refl

  pub process_price_update-Answers :
      (now : ℕ) (update : PriceUpdate F) (engine : TradingEngine st)
      → Answers update engine (process_price_update st now update engine)
  unfolding process_price_update
  process_price_update-Answers now update engine = by_activity now update engine engine.active refl
