-- ===== src/Prelude/Sort.antt =====
-- ORDER BY: the rows in the order of a test `before`, by insertion. Rows that are equal in that order
-- keep the order in which they stand, where SQL leaves their order open.
use Prim.Native.Nat.{ℕ, zero, suc, ◌+◌, ◌≤◌}
use mathlib.Core.Path.{◌≡◌, refl, ◌∙◌}
use mathlib.Core.Bool.{Bool, true, false, ◌&&◌}
use mathlib.Core.List.{List, [], ◌∷◌}
use native.Mathlib.Omega.{arith}
use mathlib.Core.Logic.{inl, inr}
use diasoft.Prelude.Tests.{Bool-cases, if◌then◌else◌}
use diasoft.Prelude.Lists.{All, count, any, select, length, take}

module _ {A : Type 0} (before : A → A → Bool) where
  pub insert_ordered : A → List A → List A
  insert_ordered x [] = x ∷ []
  insert_ordered x (y ∷ ys) =
      let rest = insert_ordered x ys in if before x y then x ∷ y ∷ ys else y ∷ rest

  unfoldable pub order_by : List A → List A
  unfolding insert_ordered
  order_by [] = []
  order_by (x ∷ xs) = insert_ordered x (order_by xs)

  -- No row stands before its predecessor.
  abbrev pub IsOrdered : List A → Type 0
  IsOrdered [] = Unit
  IsOrdered (x ∷ []) = Unit
  IsOrdered (x ∷ y ∷ ys) = (before x y ≡ true) × IsOrdered (y ∷ ys)

  count-insert_ordered :
      (p : A → Bool) (x : A) (xs : List A)
      → count p (insert_ordered x xs) ≡ (if p x then 1 else 0) + count p xs
  unfolding insert_ordered
  count-insert_ordered p x [] = refl
  count-insert_ordered p x (y ∷ ys) = ground (arith, count-insert_ordered p x ys)

  -- Ordering keeps every row as often as it was there.
  pub count-order_by : (p : A → Bool) (xs : List A) → count p (order_by xs) ≡ count p xs
  unfolding order_by
  count-order_by p [] = refl
  count-order_by p (x ∷ xs) =
      count-insert_ordered p x (order_by xs) ∙ omega (arith, count-order_by p xs)

  module _ (total : (x y : A) → before x y ≡ false → before y x ≡ true) where
    insert_ordered-IsOrdered :
        (x : A) (xs : List A) → IsOrdered xs → IsOrdered (insert_ordered x xs)
    unfolding insert_ordered
    insert_ordered-IsOrdered x [] s = tt
    insert_ordered-IsOrdered x (y ∷ []) s = ground (arith, total x y)
    insert_ordered-IsOrdered x (y ∷ z ∷ zs) s =
        ground (arith, total x y, insert_ordered-IsOrdered x (z ∷ zs) s.1)

    pub order_by-IsOrdered : (xs : List A) → IsOrdered (order_by xs)
    unfolding order_by
    order_by-IsOrdered [] = tt
    order_by-IsOrdered (x ∷ xs) = insert_ordered-IsOrdered x (order_by xs) (order_by-IsOrdered xs)

  pub take-IsOrdered : (n : ℕ) (xs : List A) → IsOrdered xs → IsOrdered (take n xs)
  take-IsOrdered zero xs s = tt
  take-IsOrdered (suc n) [] s = tt
  take-IsOrdered (suc zero) (x ∷ xs) s = tt
  take-IsOrdered (suc (suc n)) (x ∷ []) s = tt
  take-IsOrdered (suc (suc n)) (x ∷ y ∷ ys) s = (s.0, take-IsOrdered (suc n) (y ∷ ys) s.1)

module _ {A : Type 0} where
  pub length-take-le : (n : ℕ) (xs : List A) → length (take n xs) ≤ n
  length-take-le zero xs = omega arith
  length-take-le (suc n) [] = omega arith
  length-take-le (suc n) (x ∷ xs) = omega (arith, length-take-le n xs)

  pub count-select :
      (p q : A → Bool) (xs : List A) → count p (select q xs) ≡ count (λ x. q x && p x) xs
  count-select p q [] = refl
  count-select p q (x ∷ xs) = ground (arith, count-select p q xs)

  pub any-select_not :
      (p q : A → Bool) (xs : List A)
      → ((x : A) → q x ≡ true → p x ≡ false)
      → any p (select q xs) ≡ false
  any-select_not p q [] h = refl
  any-select_not p q (x ∷ xs) h = ground (arith, h x, any-select_not p q xs h)

  -- Rows that pass p pass q too: selecting by q first makes no difference to p.
  pub select-select :
      (p q : A → Bool)
      → ((x : A) → p x ≡ true → q x ≡ true)
      → (xs : List A) → select p (select q xs) ≡ select p xs
  select-select p q h [] = refl
  select-select p q h (x ∷ xs) = ground (arith, h x, select-select p q h xs)

module _ {A : Type 0} (before : A → A → Bool) (P : A → Type 0) where
  insert_ordered-All : (x : A) (xs : List A) → P x → All P xs → All P (insert_ordered before x xs)
  unfolding insert_ordered
  insert_ordered-All x [] here rest = (here, tt)
  insert_ordered-All x (y ∷ ys) here (p, rest) = elim (Bool-cases (before x y)) [
    | inl first ↦
        let same : insert_ordered before x (y ∷ ys) ≡ x ∷ y ∷ ys = ground arith in
        rw same (here, (p, rest))
    | inr later ↦
        let same : insert_ordered before x (y ∷ ys) ≡ y ∷ insert_ordered before x ys =
          ground arith in
        rw same (p, insert_ordered-All x ys here rest)
  ]

  pub order_by-All : (xs : List A) → All P xs → All P (order_by before xs)
  unfolding order_by
  order_by-All [] all_hold = tt
  order_by-All (x ∷ xs) (here, rest) =
      insert_ordered-All x (order_by before xs) here (order_by-All xs rest)
