-- ===== src/Prelude/Split.antt =====
-- Splitting a text at a character, and joining what results.
use Prim.Native.Nat.{ℕ}
use Prim.Native.Char.{Char, code}
use Prim.Native.String
use Prim.Native.String.append
use Prim.Native.String.{String}
use mathlib.Core.Path.{◌≡◌, refl, sym, ap, ◌∙◌}
use mathlib.Core.Logic.{inl, inr}
use mathlib.Core.Bool.{Bool, true, not, ◌&&◌}
use mathlib.Core.List.{List, [], ◌∷◌}
use native.Mathlib.Omega.{arith}
use text.Mathlib.TextEquality.{Char-path}
use diasoft.Prelude.Tests.{Bool-cases}
use diasoft.Prelude.Lists.{all}
use diasoft.Prelude.Equality.{◌==◌, Eq-nat}
use diasoft.Prelude.Text.{split, join, onto_first}

-- The text has no character with this code.
unfoldable pub is_free : ℕ → String → Bool
is_free sep String.[] = true
is_free sep (String.◌∷◌ c s) = not (code c == sep) && is_free sep s

module _ (c : Char) where
  split-here : (s : String) → split (code c) (String.◌∷◌ c s) ≡ "" ∷ split (code c) s
  unfolding split
  split-here s = ground arith

  pub split-append :
      (p s : String)
      → is_free (code c) p ≡ true
      → split (code c) (String.◌++◌ p (String.◌∷◌ c s)) ≡ p ∷ split (code c) s
  unfolding split is_free
  split-append String.[] s free = ap (split (code c)) (append.nil (String.◌∷◌ c s)) ∙ split-here s
  split-append (String.◌∷◌ d p) s free =
      ground (arith, append.cons d p (String.◌∷◌ c s), split-append p s)

  pub split-alone : (p : String) → is_free (code c) p ≡ true → split (code c) p ≡ p ∷ []
  unfolding split is_free
  split-alone String.[] free = refl
  split-alone (String.◌∷◌ d p) free = ground (arith, split-alone p)

  -- Splitting undoes joining, for parts that do not have the separator.
  pub split-join :
      (p : String) (ps : List String)
      → all (is_free (code c)) (p ∷ ps) ≡ true
      → split (code c) (join c (p ∷ ps)) ≡ p ∷ ps
  unfolding join
  split-join p [] free = split-alone p (ground arith)
  split-join p (q ∷ ps) free = ground (arith, split-append p (join c (q ∷ ps)), split-join q ps)

split-cons : (sep : ℕ) (s : String) → (p : String) × (ps : List String) × (split sep s ≡ p ∷ ps)
unfolding split
split-cons sep String.[] = ("", [], refl)
split-cons sep (String.◌∷◌ c s) =
    let (p, ps, same) = split-cons sep s in
    elim (Bool-cases (code c == sep)) [
      | inl here ↦ ("", p ∷ ps, ground arith)
      | inr other ↦ (String.◌∷◌ c p, ps, ground arith)
    ]

pub split-is_free : (sep : ℕ) (s : String) → all (is_free sep) (split sep s) ≡ true
unfolding split is_free
split-is_free sep String.[] = refl
split-is_free sep (String.◌∷◌ c s) =
    let (p, ps, same) = split-cons sep s in ground (arith, split-is_free sep s)

join-onto_first :
    (c d : Char) (p : String) (ps : List String)
    → join c (onto_first d (p ∷ ps)) ≡ String.◌∷◌ d (join c (p ∷ ps))
unfolding join
join-onto_first c d p [] = refl
join-onto_first c d p (q ∷ ps) = append.cons d p (String.◌∷◌ c (join c (q ∷ ps)))

-- Joining undoes splitting.
pub join-split : (c : Char) (s : String) → join c (split (code c) s) ≡ s
unfolding split join
join-split c String.[] = refl
join-split c (String.◌∷◌ d s) =
    let (p, ps, same) = split-cons (code c) s in
    let before : join c (p ∷ ps) ≡ s = ap (join c) (sym same) ∙ join-split c s in
    elim (Bool-cases (code d == code c)) [
      | inl here ↦
          let split_here : split (code c) (String.◌∷◌ d s) ≡ "" ∷ p ∷ ps = ground arith in
          let same_char : d ≡ c = Char-path d c (ground arith) in
          ap (join c) split_here
          ∙ append.nil (String.◌∷◌ c (join c (p ∷ ps)))
          ∙ ap (String.◌∷◌ c) before
          ∙ ap (λ e. String.◌∷◌ e s) (sym same_char)
      | inr other ↦
          let split_on : split (code c) (String.◌∷◌ d s) ≡ onto_first d (p ∷ ps) = ground arith in
          ap (join c) split_on ∙ join-onto_first c d p ps ∙ ap (String.◌∷◌ d) before
    ]
