-- ===== src/Prelude/Sort.antt =====
-- Python's `sorted`: stable, and driven by "less than" on the keys alone.
use Prim.Native.Nat.{◌+◌}
use mathlib.Core.Path.{◌≡◌, refl}
use mathlib.Core.Logic.{inl, inr}
use mathlib.Core.Bool.{Bool}
use mathlib.Core.List.{List, [], ◌∷◌, ◌++◌, Perm, perm_middle, append-nil}
use mathlib.Core.List.Perm
use native.Mathlib.Omega.{arith}
use codex_trading_app.Prelude.Tests.{if◌then◌else◌, Bool-cases}
use codex_trading_app.Prelude.Lists.{All, count}

module _ {ℓ} {A : Type ℓ} (less : A → A → Bool) where
  -- `x` goes behind the elements that it is not less than.
  unfoldable pub insert : A → List A → List A
  insert x [] = x ∷ []
  insert x (y ∷ ys) = let rest = insert x ys in if less x y then x ∷ y ∷ ys else y ∷ rest

  unfoldable pub sort_onto : List A → List A → List A
  unfolding insert
  sort_onto acc [] = acc
  sort_onto acc (x ∷ xs) = sort_onto (insert x acc) xs

  unfoldable pub sorted : List A → List A
  unfolding sort_onto
  sorted xs = sort_onto [] xs

  insert-perm : (x : A) (ys : List A) → Perm (insert x ys) (x ∷ ys)
  unfolding insert
  insert-perm x [] = Perm.refl _
  insert-perm x (y ∷ ys) = elim (Bool-cases (less x y)) [
    | inl e ↦ rw e (Perm.refl _)
    | inr e ↦ rw e (Perm.trans (Perm.cons y (insert-perm x ys)) (Perm.swap x y ys))
  ]

  sort_onto-perm : (acc xs : List A) → Perm (sort_onto acc xs) (acc ++ xs)
  unfolding sort_onto
  sort_onto-perm acc [] = rw append-nil (Perm.refl acc)
  sort_onto-perm acc (x ∷ xs) =
      Perm.trans (sort_onto-perm (insert x acc) xs)
        (Perm.trans (Perm.append_right xs (insert-perm x acc)) (Perm.symm (perm_middle acc xs)))

  -- `sorted` rearranges its list.
  pub sorted-perm : (xs : List A) → Perm (sorted xs) xs
  unfolding sorted
  sorted-perm xs = sort_onto-perm [] xs

  insert-All {κ} : (P : A → Type κ) (x : A) (ys : List A) → P x → All P ys → All P (insert x ys)
  unfolding insert
  insert-All P x [] p ps = (p, tt)
  insert-All P x (y ∷ ys) p ps = elim (Bool-cases (less x y)) [
    | inl e ↦ rw e (p, ps)
    | inr e ↦ rw e (ps.0, insert-All P x ys p ps.1)
  ]

  sort_onto-All {κ} :
      (P : A → Type κ) (acc xs : List A) → All P acc → All P xs → All P (sort_onto acc xs)
  unfolding sort_onto
  sort_onto-All P acc [] a b = a
  sort_onto-All P acc (x ∷ xs) a b =
      sort_onto-All P (insert x acc) xs (insert-All P x acc b.0 a) b.1

  -- What holds of every element holds of every element of the sorted list.
  pub sorted-All {κ} : (P : A → Type κ) (xs : List A) → All P xs → All P (sorted xs)
  unfolding sorted
  sorted-All P xs h = sort_onto-All P [] xs tt h

  count-insert : (p : A → Bool) (x : A) (ys : List A) → count p (insert x ys) ≡ count p (x ∷ ys)
  unfolding insert
  count-insert p x [] = refl
  count-insert p x (y ∷ ys) = ground (arith, count-insert p x ys)

  count-sort_onto :
      (p : A → Bool) (acc xs : List A) → count p (sort_onto acc xs) ≡ count p acc + count p xs
  unfolding sort_onto
  count-sort_onto p acc [] = omega arith
  count-sort_onto p acc (x ∷ xs) =
      ground (arith, count-sort_onto p (insert x acc) xs, count-insert p x acc)

  pub count-sorted : (p : A → Bool) (xs : List A) → count p (sorted xs) ≡ count p xs
  unfolding sorted
  count-sorted p xs = omega (arith, count-sort_onto p [] xs)
