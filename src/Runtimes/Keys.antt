-- ===== src/Runtimes/Keys.antt =====
-- Keys of engines, and the first entry of a key, for backend/app/core/runtime.py.
use codex_trading_app.Prelude.{
  str_eq, eq_iff, eq_refl, ◌≡◌, refl, ap, ◌∙◌, Bool, true, false, not, Option, none, some, List, [],
  ◌∷◌, any, filter, map, arith, inl, inr, Bool-cases, and_parts, if◌then◌else◌,
}
use mathlib.Core.Option
use mathlib.Core.Path.{subst}
use codex_trading_app.Prelude.Rows.{find_first}
use codex_trading_app.Runtimes.Manager.{RuntimeKey, is_same_key, set_engine}

pub is_same_key-eq : (k l : RuntimeKey) → is_same_key k l ≡ true → k ≡ l
is_same_key-eq k l h =
    let (s, i) =
      and_parts (str_eq k.strategy_name l.strategy_name) (str_eq k.instrument l.instrument) h in
    let p = (eq_iff k.strategy_name l.strategy_name).0 s in
    let q = (eq_iff k.instrument l.instrument).0 i in
    λ j. record { strategy_name = p j; instrument = q j }

-- A test of keys answers the same of the same key.
pub is_same_key-test :
    (t : RuntimeKey → Bool) (k l : RuntimeKey) → is_same_key k l ≡ true → t k ≡ t l
is_same_key-test t k l h = ap t (is_same_key-eq k l h)

pub is_same_key_refl : (k : RuntimeKey) → is_same_key k k ≡ true
is_same_key_refl k = rw (eq_refl k.strategy_name, eq_refl k.instrument) refl

pub is_same_key-sym : (k l : RuntimeKey) → is_same_key k l ≡ true → is_same_key l k ≡ true
is_same_key-sym k l h =
    subst (λ m. is_same_key m k ≡ true) (is_same_key-eq k l h) (is_same_key_refl k)

-- What has one key has no other.
keys_apart :
    (e key k : RuntimeKey)
    → is_same_key e key ≡ true
    → is_same_key e k ≡ false
    → is_same_key k key ≡ false
keys_apart e key k found h = elim (Bool-cases (is_same_key k key)) [
  | inr other ↦ other
  | inl same ↦
      let back = is_same_key-sym k key same in
      let moved = is_same_key-test (λ l. is_same_key l k) e key found in cc
]

module _ {A : Type 0} where
  -- The entry of a key, of a dict with keys of engines.
  abbrev pub entry_of : RuntimeKey → List (RuntimeKey × A) → Option A
  entry_of key es =
      Option.map (λ (e : RuntimeKey × A). e.1) (find_first (λ e. is_same_key (e.0) key) es)

  pub entry_of-none :
      (t : RuntimeKey → Bool) (key : RuntimeKey) (es : List (RuntimeKey × A))
      → any (λ e. t (e.0)) es ≡ false
      → t key ≡ true
      → entry_of key es ≡ none
  unfolding find_first
  entry_of-none t key [] h k = refl
  entry_of-none t key (e ∷ es) h k =
      ground (arith, h, k, is_same_key-test t (e.0) key, entry_of-none t key es)

  -- An assignment gives the key its value, and leaves the other keys alone.
  pub entry_of-set_engine :
      (key k : RuntimeKey) (a : A) (es : List (RuntimeKey × A))
      → entry_of key (set_engine k a es) ≡ (if is_same_key k key then some a else entry_of key es)
  unfolding find_first set_engine
  entry_of-set_engine key k a [] = elim (Bool-cases (is_same_key k key)) [
    | inl same ↦ rw same refl
    | inr other ↦ rw other refl
  ]
  entry_of-set_engine key k a (e ∷ es) = elim (Bool-cases (is_same_key (e.0) k)) [
    | inl here ↦
        let moved = is_same_key-test (λ l. is_same_key l key) (e.0) k here in
        elim (Bool-cases (is_same_key k key)) [
          | inl same ↦ rw (here, same) refl
          | inr other ↦ rw (here, moved ∙ other, other) refl
        ]
    | inr apart ↦ elim (Bool-cases (is_same_key (e.0) key)) [
      | inl found ↦ rw (apart, found, keys_apart (e.0) key k found apart) refl
      | inr other ↦ rw (apart, other) (entry_of-set_engine key k a es)
    ]
  ]

  -- Where the key of some entry passes a test, some key that passes has a value.
  pub entry_of-any :
      (t : RuntimeKey → Bool) (es : List (RuntimeKey × A))
      → any (λ e. t (e.0)) es ≡ true
      → (key : RuntimeKey) × (t key ≡ true) × (a : A) × (entry_of key es ≡ some a)
  unfolding find_first
  entry_of-any t [] h = cc
  entry_of-any t (e ∷ es) h = elim (Bool-cases (t (e.0))) [
    | inl passes ↦ (e.0, passes, e.1, rw (is_same_key_refl (e.0)) refl)
    | inr fails ↦
        let (key, passes, a, found) = entry_of-any t es (rw fails at h) in
        elim (Bool-cases (is_same_key (e.0) key)) [
          | inl same ↦ (key, passes, e.1, rw same refl)
          | inr other ↦ (key, passes, a, rw other found)
        ]
  ]

  pub entry_of-some :
      (key k : RuntimeKey) (es : List (RuntimeKey × A))
      → any (λ e. is_same_key (e.0) k) es ≡ true
      → is_same_key k key ≡ true
      → (a : A) × (entry_of key es ≡ some a)
  unfolding find_first
  entry_of-some key k [] h same = cc
  entry_of-some key k (e ∷ es) h same = elim (Bool-cases (is_same_key (e.0) key)) [
    | inl found ↦ (e.1, rw found refl)
    | inr other ↦
        let (a, later) =
          entry_of-some key k es
            (ground (arith, h, same, other, is_same_key-test (λ l. is_same_key (e.0) l) k key))
            same in
        (a, rw other later)
  ]

  pub entry_of-filter :
      (t : RuntimeKey → Bool) (key : RuntimeKey) (es : List (RuntimeKey × A))
      → entry_of key (filter (λ e. not (t (e.0))) es) ≡ (if t key then none else entry_of key es)
  unfolding find_first
  entry_of-filter t key [] = ground arith
  entry_of-filter t key (e ∷ es) =
      ground (arith, is_same_key-test t (e.0) key, entry_of-filter t key es)

  -- Every entry whose key passes a test is changed.
  abbrev pub amended : (RuntimeKey → Bool) → (A → A) → RuntimeKey × A → RuntimeKey × A
  amended t change e = if t (e.0) then (e.0, change (e.1)) else e

  amended_key :
      (t : RuntimeKey → Bool) (change : A → A) (e : RuntimeKey × A) → (amended t change e).0 ≡ e.0
  amended_key t change e = elim (Bool-cases (t (e.0))) [
    | inl passes ↦ rw passes refl
    | inr fails ↦ rw fails refl
  ]

  pub entry_of-amended :
      (t : RuntimeKey → Bool) (change : A → A) (key : RuntimeKey) (es : List (RuntimeKey × A))
      → entry_of key (map (amended t change) es)
        ≡ (if t key then Option.map change (entry_of key es) else entry_of key es)
  unfolding find_first
  entry_of-amended t change key [] = elim (Bool-cases (t key)) [
    | inl passes ↦ rw passes refl
    | inr fails ↦ rw fails refl
  ]
  entry_of-amended t change key (e ∷ es) = elim (Bool-cases (is_same_key (e.0) key)) [
    | inr other ↦ rw (amended_key t change e, other) (entry_of-amended t change key es)
    | inl found ↦
        let same = is_same_key-test t (e.0) key found in
        elim (Bool-cases (t key)) [
          | inl passes ↦ rw (same ∙ passes, found, passes) refl
          | inr fails ↦ rw (same ∙ fails, found, fails) refl
        ]
  ]
