-- ===== src/Prelude/Results.antt =====
-- A Go function that returns a value and an error: either the value, or the error alone.
use mathlib.Core.Path.{◌≡◌, refl}
use mathlib.Core.Logic.{◌⊎◌, inl, inr}
use native.Mathlib.Omega.{arith}
use mathlib.Core.Bool.{Bool, true, false}

pub data Result (E A : Type 0) : Type 0 where
  ok : A → Result E A
  err : E → Result E A

infixl 5 ◌>>=◌ ◌>>◌
abbrev pub ◌>>=◌ : {E A B : Type 0} → Result E A → (A → Result E B) → Result E B
ok a >>= f = f a
err e >>= f = err e

abbrev pub ◌>>◌ : {E B : Type 0} → Result E (Unit {0}) → Result E B → Result E B
m >> k = m >>= λ _. k

abbrev pub guard : {E : Type 0} → Bool → E → Result E (Unit {0})
guard true e = ok tt
guard false e = err e

abbrev pub map_err : {E F A : Type 0} → (E → F) → Result E A → Result F A
map_err f (ok a) = ok a
map_err f (err e) = err (f e)

abbrev pub is_ok : {E A : Type 0} → Result E A → Bool
is_ok (ok a) = true
is_ok (err e) = false

pub Result-cases :
    {E A : Type 0} (r : Result E A) → ((a : A) × (r ≡ ok a)) ⊎ ((e : E) × (r ≡ err e))
Result-cases (ok a) = inl (a, refl)
Result-cases (err e) = inr (e, refl)

-- A chain that succeeds, one step at a time.
module _ {E A B : Type 0} where
  pub bind-ok :
      (m : Result E A) (k : A → Result E B) {b : B}
      → (m >>= k) ≡ ok b
      → (a : A) × (m ≡ ok a) × (k a ≡ ok b)
  bind-ok (ok a) k h = (a, refl, h)
  bind-ok (err e) k h = absurd (ground (arith, h))

module _ {E F A B : Type 0} where
  pub bind_map_err-ok :
      (g : F → E) (m : Result F A) (k : A → Result E B) {b : B}
      → (map_err g m >>= k) ≡ ok b
      → (a : A) × (m ≡ ok a) × (k a ≡ ok b)
  bind_map_err-ok g (ok a) k h = (a, refl, h)
  bind_map_err-ok g (err e) k h = absurd (ground (arith, h))

module _ {E B : Type 0} where
  pub bind_guard-ok :
      (test : Bool) (e : E) (k : Result E B) {b : B}
      → (guard test e >> k) ≡ ok b
      → (test ≡ true) × (k ≡ ok b)
  bind_guard-ok true e k h = (refl, h)
  bind_guard-ok false e k h = absurd (ground (arith, h))

pub guard-ok : {E : Type 0} (test : Bool) (e : E) → guard test e ≡ ok tt → test ≡ true
guard-ok true e h = refl
guard-ok false e h = absurd (ground (arith, h))
