-- ===== src/Allocation/State/Counts.antt =====
-- The position counts of the book that `_build_open_state` of
-- backend/app/services/capital_allocator_service.py builds.
use codex_trading_app.Prelude.{
  ℕ, ◌+◌, String, str_eq, eq_iff, ◌≡◌, refl, Bool, true, false, not, ◌&&◌, ◌||◌, Option, none, some,
  List, [], ◌∷◌, any, all, count, count_congr, length, arith, ◌==◌,
}
use codex_trading_app.Allocation.Floats.{Floats}
use codex_trading_app.Allocation.Signals.{PositionRisk, IntentRisk, Brokers}
use codex_trading_app.Allocation.State.{
  OpenState, bump, empty_book, add_position, add_positions, reserved_intent_ids, is_reserved,
  is_unreserved, is_listed, is_missing_id, gathered, add_intent, add_intents, build_open_state,
}

abbrev pub is_same_intent : Option ℕ → Option ℕ → Bool
is_same_intent (some a) (some b) = a == b
is_same_intent _ _ = false

abbrev pub is_some : Option ℕ → Bool
is_some none = false
is_some (some a) = true

module _ (fl : Floats) {E : Type 0} (brokers : Brokers fl.F E) where
  open fl use {F}

  -- An open position that belongs to an intent.
  abbrev is_of : IntentRisk F → PositionRisk F → Bool
  is_of intent p = is_same_intent p.trade_intent_id intent.id

  -- An intent for which no position stands: none is recorded in it, and no open one belongs to it.
  abbrev pub stands_alone : List (PositionRisk F) → IntentRisk F → Bool
  stands_alone positions intent =
      all (λ p. not (is_of intent p)) positions && not (is_some intent.position_id)

  -- The positions of a strategy, and its intents for which no position stands.
  abbrev pub held_by : String → List (PositionRisk F) → List (IntentRisk F) → ℕ
  held_by strategy positions intents =
      count (λ p. str_eq p.strategy_name strategy) positions
      + count (λ i. stands_alone positions i && str_eq i.strategy_name strategy) intents

  any-gathered :
      (o : Option ℕ) (n : ℕ) (ids : List ℕ)
      → any (λ j. j == n) (gathered fl brokers o ids)
        ≡ (is_same_intent o (some n) || any (λ j. j == n) ids)
  any-gathered none n ids = refl
  any-gathered (some i) n ids = refl

  any-reserved_intent_ids :
      (n : ℕ) (positions : List (PositionRisk F))
      → any (λ j. j == n) (reserved_intent_ids fl brokers positions)
        ≡ not (all (λ p. not (is_same_intent p.trade_intent_id (some n))) positions)
  unfolding reserved_intent_ids
  any-reserved_intent_ids n [] = refl
  any-reserved_intent_ids n (p ∷ ps) = ground (
    arith,
    any-gathered p.trade_intent_id n (reserved_intent_ids fl brokers ps),
    any-reserved_intent_ids n ps,
  )

  is_same_intent-none : (o : Option ℕ) → is_same_intent o none ≡ false
  is_same_intent-none none = refl
  is_same_intent-none (some i) = refl

  all_apart :
      (positions : List (PositionRisk F))
      → all (λ p. not (is_same_intent p.trade_intent_id none)) positions ≡ true
  all_apart [] = refl
  all_apart (p ∷ ps) = ground (arith, is_same_intent-none p.trade_intent_id, all_apart ps)

  -- The guard of the loop and that of the count, against the description.
  is_reserved_lem :
      (positions : List (PositionRisk F)) (id : Option ℕ)
      → is_reserved fl brokers (reserved_intent_ids fl brokers positions) id
        ≡ not (all (λ p. not (is_same_intent p.trade_intent_id id)) positions)
  unfolding is_reserved
  is_reserved_lem positions none = rw (all_apart positions) refl
  is_reserved_lem positions (some n) = any-reserved_intent_ids n positions

  is_unreserved_lem :
      (positions : List (PositionRisk F)) (id : Option ℕ)
      → is_unreserved fl brokers (reserved_intent_ids fl brokers positions) id
        ≡ all (λ p. not (is_same_intent p.trade_intent_id id)) positions
  unfolding is_unreserved
  is_unreserved_lem positions none = rw (all_apart positions) refl
  is_unreserved_lem positions (some n) = ground (arith, any-reserved_intent_ids n positions)

  is_missing_id_lem : (id : Option ℕ) → is_missing_id fl brokers id ≡ not (is_some id)
  is_missing_id_lem none = refl
  is_missing_id_lem (some n) = refl

  is_listed_lem :
      (positions : List (PositionRisk F)) (i : IntentRisk F)
      → is_listed fl brokers (reserved_intent_ids fl brokers positions) i ≡ stands_alone positions i
  unfolding is_listed
  is_listed_lem positions i =
      ground (arith, is_unreserved_lem positions i.id, is_missing_id_lem i.position_id)

  add_positions-count :
      (s : String) (ps : List (PositionRisk F)) (book : OpenState F)
      → (add_positions fl brokers ps book).strategy_positions s
        ≡ book.strategy_positions s + count (λ p. str_eq p.strategy_name s) ps
  unfolding add_positions bump
  add_positions-count s [] book = omega arith
  add_positions-count s (p ∷ ps) book = ground (
    arith,
    eq_iff s p.strategy_name,
    eq_iff p.strategy_name s,
    add_positions-count s ps (add_position fl brokers p book),
  )

  add_intents-count :
      (s : String) (positions : List (PositionRisk F)) (is : List (IntentRisk F))
      (book : OpenState F)
      → (add_intents fl brokers
            (reserved_intent_ids fl brokers positions)
            is
            book).strategy_positions
          s
        ≡ book.strategy_positions s
          + count (λ i. stands_alone positions i && str_eq i.strategy_name s) is
  unfolding add_intents is_reserved bump
  add_intents-count s positions [] book = omega arith
  add_intents-count s positions (i ∷ is) book = ground (
    arith,
    eq_iff s i.strategy_name,
    eq_iff i.strategy_name s,
    is_reserved_lem positions i.id,
    is_missing_id_lem i.position_id,
    add_intents-count s positions is (add_intent fl brokers i book),
    add_intents-count s positions is book,
  )

  -- The book counts each open position, and each reserved intent that carries no position and that no
  -- open position names, once: in all and for every strategy.
  pub book_counts :
      (strategy : String) (positions : List (PositionRisk F)) (intents : List (IntentRisk F))
      → let book = build_open_state fl brokers positions intents in
        (book.open_positions ≡ length positions + count (stands_alone positions) intents)
        × (book.strategy_positions strategy ≡ held_by strategy positions intents)
  unfolding build_open_state empty_book
  book_counts strategy positions intents = (
    omega (
      arith,
      count_congr (is_listed fl brokers (reserved_intent_ids fl brokers positions))
          (stands_alone positions) (is_listed_lem positions) intents,
    ),
    omega (
      arith,
      add_positions-count strategy positions (empty_book fl),
      add_intents-count strategy positions intents
          (add_positions fl brokers positions (empty_book fl)),
    ),
  )
