-- ===== src/Prelude/Lists.antt =====
-- Lists measured by native numbers, Boolean quantifiers, and the first element that passes a test.
use Prim.Native.Nat.{ℕ, zero, suc, ◌+◌}
use mathlib.Core.Path.{◌≡◌, refl}
use mathlib.Core.Logic.{inl, inr}
use mathlib.Core.Bool.{Bool, true, false, ◌&&◌, ◌||◌}
use mathlib.Core.Option.{Option, none, some}
use mathlib.Core.List.{List, [], ◌∷◌, ◌++◌}
use native.Mathlib.Omega.{arith}
use diasoft.Prelude.Tests.{Bool-cases, if◌then◌else◌}

module _ {ℓ} {A : Type ℓ} where
  abbrev pub length : List A → ℕ
  length [] = 0
  length (x ∷ xs) = suc (length xs)

  pub length-append : (xs ys : List A) → length (xs ++ ys) ≡ length xs + length ys
  length-append [] ys = omega arith
  length-append (x ∷ xs) ys = omega (arith, length-append xs ys)

  abbrev pub any : (A → Bool) → List A → Bool
  any p [] = false
  any p (x ∷ xs) = p x || any p xs

  abbrev pub all : (A → Bool) → List A → Bool
  all p [] = true
  all p (x ∷ xs) = p x && all p xs

  abbrev pub find : (A → Bool) → List A → Option A
  find p [] = none
  find p (x ∷ xs) = if p x then some x else find p xs

  -- The rows that pass the test, in their order.
  abbrev pub select : (A → Bool) → List A → List A
  select p [] = []
  select p (x ∷ xs) = let rest = select p xs in if p x then x ∷ rest else rest

  abbrev pub count : (A → Bool) → List A → ℕ
  count p [] = 0
  count p (x ∷ xs) = (if p x then 1 else 0) + count p xs

  -- Every row that passes the test is changed.
  abbrev pub update : (A → Bool) → (A → A) → List A → List A
  update p f [] = []
  update p f (x ∷ xs) = (if p x then f x else x) ∷ update p f xs

  pub count-append : (p : A → Bool) (xs ys : List A) → count p (xs ++ ys) ≡ count p xs + count p ys
  count-append p [] ys = omega arith
  count-append p (x ∷ xs) ys = ground (arith, count-append p xs ys)

  pub any-count : (p : A → Bool) (xs : List A) → count p xs ≡ 0 → any p xs ≡ false
  any-count p [] h = refl
  any-count p (x ∷ xs) h = ground (arith, any-count p xs)

  pub none-count : (p : A → Bool) (xs : List A) → any p xs ≡ false → count p xs ≡ 0
  none-count p [] h = refl
  none-count p (x ∷ xs) h = ground (arith, none-count p xs)

  pub any-find-none : (p : A → Bool) (xs : List A) → find p xs ≡ none → any p xs ≡ false
  any-find-none p [] h = refl
  any-find-none p (x ∷ xs) h = ground (arith, any-find-none p xs)

  pub find-any-false : (p : A → Bool) (xs : List A) → any p xs ≡ false → find p xs ≡ none
  find-any-false p [] h = refl
  find-any-false p (x ∷ xs) h = ground (arith, find-any-false p xs)

  pub find-concat :
      (p : A → Bool) (xs : List A) (y : A)
      → find p (xs ++ y ∷ [])
        ≡ elim (find p xs) [ none ↦ if p y then some y else none | some x ↦ some x ]
  find-concat p [] y = refl
  find-concat p (x ∷ xs) y = ground (arith, find-concat p xs y)

  pub any-concat : (p : A → Bool) (xs : List A) (y : A) → p y ≡ true → any p (xs ++ y ∷ []) ≡ true
  any-concat p [] y h = ground arith
  any-concat p (x ∷ xs) y h = ground (arith, any-concat p xs y h)

  pub find-any-true :
      (p : A → Bool) (xs : List A) → any p xs ≡ true → (x : A) × (find p xs ≡ some x)
  find-any-true p [] h = ground arith
  find-any-true p (x ∷ xs) h = elim (Bool-cases (p x)) [
    | inl now ↦ (x, rw now)
    | inr later ↦ let (y, found) = find-any-true p xs (ground arith) in (y, rw later found)
  ]

  pub find-holds : (p : A → Bool) (xs : List A) (x : A) → find p xs ≡ some x → p x ≡ true
  find-holds p [] x h = ground arith
  find-holds p (y ∷ xs) x h = ground (arith, find-holds p xs x)

  -- An UPDATE that only the last row passes.
  pub update-concat :
      (p : A → Bool) (f : A → A) (xs : List A) (y : A)
      → any p xs ≡ false
      → p y ≡ true
      → update p f (xs ++ y ∷ []) ≡ xs ++ f y ∷ []
  update-concat p f [] y h k = ground arith
  update-concat p f (x ∷ xs) y h k = ground (arith, update-concat p f xs y)

  pub any-find :
      (p q : A → Bool) (xs : List A) (x : A) → find p xs ≡ some x → q x ≡ true → any q xs ≡ true
  any-find p q [] x h k = ground arith
  any-find p q (y ∷ xs) x h k = elim (Bool-cases (p y)) [
    | inl now ↦ let e : y ≡ x = ground arith in rw e (rw k refl)
    | inr later ↦ ground (arith, any-find p q xs x)
  ]

  -- An UPDATE that leaves the test of a search alone, seen by that search.
  pub find-update_map :
      (p q : A → Bool) (f : A → A)
      → ((x : A) → p (f x) ≡ p x)
      → (xs : List A)
      → find p (update q f xs)
        ≡ elim (find p xs) [ none ↦ none | some x ↦ some (if q x then f x else x) ]
  find-update_map p q f keeps [] = refl
  find-update_map p q f keeps (x ∷ xs) = ground (arith, keeps x, find-update_map p q f keeps xs)

module _ {ℓ κ} {A : Type ℓ} (P : A → Type κ) where
  abbrev pub All : List A → Type κ
  All [] = Unit
  All (x ∷ xs) = P x × All xs

  pub All-append : (xs ys : List A) → All xs → All ys → All (xs ++ ys)
  All-append [] ys h k = k
  All-append (x ∷ xs) ys (p, h) k = (p, All-append xs ys h k)

-- xs[:n] and xs[n:], where n is within bounds
abbrev pub take {ℓ} : {A : Type ℓ} → ℕ → List A → List A
take zero xs = []
take (suc n) [] = []
take (suc n) (x ∷ xs) = x ∷ take n xs

abbrev pub drop {ℓ} : {A : Type ℓ} → ℕ → List A → List A
drop zero xs = xs
drop (suc n) [] = []
drop (suc n) (x ∷ xs) = drop n xs

abbrev pub get_elem? {ℓ} : {A : Type ℓ} → List A → ℕ → Option A
get_elem? [] i = none
get_elem? (x ∷ xs) zero = some x
get_elem? (x ∷ xs) (suc i) = get_elem? xs i
