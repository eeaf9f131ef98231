-- ===== src/Prelude/Trim.antt =====
-- Trimming a text twice.
use Prim.Native.Char.{Char, code}
use Prim.Native.String.{String}
use mathlib.Core.Path.{◌≡◌, refl, sym, ap, ◌∙◌}
use mathlib.Core.Logic.{inl, inr}
use mathlib.Core.Bool.{◌&&◌}
use native.Mathlib.Omega.{arith}
use diasoft.Prelude.Tests.{Bool-cases}
use diasoft.Prelude.Text.{is_space, is_empty, trim_left, trim_right, trim_space, keep}

trim_right_twice : (s : String) → trim_right (trim_right s) ≡ trim_right s
unfolding trim_right
trim_right_twice String.[] = refl
trim_right_twice (String.◌∷◌ c s) =
    elim (Bool-cases (is_empty (trim_right s) && is_space (code c))) [
      | inl gone ↦
          let e : trim_right (String.◌∷◌ c s) ≡ "" = ground arith in ap trim_right e ∙ sym e
      | inr stays ↦
          let e : trim_right (String.◌∷◌ c s) ≡ String.◌∷◌ c (trim_right s) = ground arith in
          ap trim_right e ∙ ap (keep c) (trim_right_twice s)
    ]

trim_left_twice : (s : String) → trim_left (trim_left s) ≡ trim_left s
unfolding trim_left
trim_left_twice String.[] = refl
trim_left_twice (String.◌∷◌ c s) = ground (arith, trim_left_twice s)

abbrev tail : String → String
tail String.[] = ""
tail (String.◌∷◌ c s) = s

trimmed_tail :
    (c : Char) (s : String) → trim_right (String.◌∷◌ c s) ≡ String.◌∷◌ c s → trim_right s ≡ s
unfolding trim_right
trimmed_tail c s h = elim (Bool-cases (is_empty (trim_right s) && is_space (code c))) [
  | inl gone ↦ absurd (ground arith)
  | inr stays ↦
      let e : trim_right (String.◌∷◌ c s) ≡ String.◌∷◌ c (trim_right s) = ground arith in
      ap tail (sym e ∙ h)
]

trim_right-trim_left : (s : String) → trim_right s ≡ s → trim_right (trim_left s) ≡ trim_left s
unfolding trim_left trim_right
trim_right-trim_left String.[] h = refl
trim_right-trim_left (String.◌∷◌ c s) h = elim (Bool-cases (is_space (code c))) [
  | inr letter ↦
      let e : trim_left (String.◌∷◌ c s) ≡ String.◌∷◌ c s = ground arith in
      ap trim_right e ∙ h ∙ sym e
  | inl space ↦
      let e : trim_left (String.◌∷◌ c s) ≡ trim_left s = ground arith in
      ap trim_right e ∙ trim_right-trim_left s (trimmed_tail c s h) ∙ sym e
]

pub trim_space_twice : (s : String) → trim_space (trim_space s) ≡ trim_space s
unfolding trim_space
trim_space_twice s =
    ap trim_left (trim_right-trim_left (trim_right s) (trim_right_twice s))
    ∙ trim_left_twice (trim_right s)
