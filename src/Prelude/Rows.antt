-- ===== src/Prelude/Rows.antt =====
-- The first element of a list that a test selects: finding it, and writing another in its place.
use Prim.Native.Nat.{suc, ◌≤◌, ◌+◌}
use mathlib.Core.Path.{◌≡◌, refl}
use mathlib.Core.Bool.{Bool, true, false, not, ◌&&◌}
use mathlib.Core.Option.{Option, none, some}
use mathlib.Core.List.{List, [], ◌∷◌}
use native.Mathlib.Omega.{arith}
use codex_trading_app.Prelude.Tests.{if◌then◌else◌}
use codex_trading_app.Prelude.Lists.{length, count, count_mono}

module _ {A : Type 0} (key : A → Bool) where
  unfoldable pub find_first : List A → Option A
  find_first [] = none
  find_first (x ∷ xs) = let rest = find_first xs in if key x then some x else rest

  unfoldable pub replace_first : A → List A → List A
  replace_first y [] = []
  replace_first y (x ∷ xs) = let rest = replace_first y xs in if key x then y ∷ xs else x ∷ rest

  -- Where the new element passes a test only if the old one does, no more elements pass.
  pub count-replace_first :
      (p : A → Bool) (y old : A) (xs : List A)
      → find_first xs ≡ some old
      → (p y ≡ true → p old ≡ true)
      → count p (replace_first y xs) ≤ count p xs
  unfolding find_first replace_first
  count-replace_first p y old [] h mono = ground (arith, h)
  count-replace_first p y old (x ∷ xs) h mono =
      ground (arith, h, mono, count-replace_first p y old xs)

  -- Where the element found passes a test, it is counted besides those that the key does not select.
  pub count_others :
      (p : A → Bool) (old : A) (xs : List A)
      → find_first xs ≡ some old
      → p old ≡ true
      → suc (count (λ x. p x && not (key x)) xs) ≤ count p xs
  unfolding find_first
  count_others p old [] h owned = ground (arith, h)
  count_others p old (x ∷ xs) h owned = ground (
    arith,
    h,
    owned,
    count_others p old xs,
    count_mono (λ x. p x && not (key x)) p (λ x e. ground (arith, e)) xs,
  )

  -- The new element counts in the place of the one found.
  pub count-replace_first_eq :
      (p : A → Bool) (y old : A) (xs : List A)
      → find_first xs ≡ some old
      → count p (replace_first y xs) + (if p old then 1 else 0)
        ≡ count p xs + (if p y then 1 else 0)
  unfolding find_first replace_first
  count-replace_first_eq p y old [] h = ground (arith, h)
  count-replace_first_eq p y old (x ∷ xs) h = ground (arith, h, count-replace_first_eq p y old xs)

  pub length-replace_first : (y : A) (xs : List A) → length (replace_first y xs) ≡ length xs
  unfolding replace_first
  length-replace_first y [] = refl
  length-replace_first y (x ∷ xs) = ground (arith, length-replace_first y xs)

module _ {A : Type 0} where
  -- What another key finds stays.
  pub find_first-replace_first :
      (key other : A → Bool) (y old : A) (xs : List A)
      → find_first key xs ≡ some old
      → other y ≡ false
      → other old ≡ false
      → find_first other (replace_first key y xs) ≡ find_first other xs
  unfolding find_first replace_first
  find_first-replace_first key other y old [] h a b = refl
  find_first-replace_first key other y old (x ∷ xs) h a b =
      ground (arith, h, a, b, find_first-replace_first key other y old xs)
