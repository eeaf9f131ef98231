-- ===== src/Prelude/Equality.antt =====
-- One test of equality for the types that the code compares.
use Prim.Native.Nat.{ℕ}
use Prim.Native.String.{String}
use mathlib.Core.Path.{◌≡◌}
use mathlib.Core.Logic.{◌↔◌}
use mathlib.Core.Bool.{Bool, true}
use text.Mathlib.Text.{◌==◌ as str_eq}
use text.Mathlib.TextEquality.{eq_iff}
use diasoft.Prelude.Tests.{nat_eq, nat_eq_iff}
use diasoft.Prelude.Int.{ℤ, int_eq, int_eq_iff}

pub record Eq (A : Type 0) : Type 0 where
  pub beq : A → A → Bool
  pub beq_iff : (a b : A) → (beq a b ≡ true) ↔ (a ≡ b)

infix 50 ◌==◌
abbrev pub ◌==◌ : {A : Type 0} ⦃e : Eq A⦄ → A → A → Bool
◌==◌ ⦃e⦄ = e.beq

instance abbrev pub Eq-nat : Eq ℕ
Eq-nat = record { beq = nat_eq; beq_iff = nat_eq_iff }

instance abbrev pub Eq-string : Eq String
Eq-string = record { beq = str_eq; beq_iff = eq_iff }

instance abbrev pub Eq-int : Eq ℤ
Eq-int = record { beq = int_eq; beq_iff = int_eq_iff }
