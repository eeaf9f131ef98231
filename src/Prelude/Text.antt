-- ===== src/Prelude/Text.antt =====
-- Go strings as texts of code points, and the functions of the package strings that the code calls.
use Prim.Native.Nat.{ℕ, suc, ◌+◌}
use Prim.Native.Char.{Char, code}
use Prim.Native.String
use Prim.Native.String.{String}
use mathlib.Core.Path.{◌≡◌, refl}
use mathlib.Core.Bool.{Bool, true, false, ◌&&◌, ◌||◌}
use mathlib.Core.List.{List, [], ◌∷◌}
use diasoft.Prelude.Tests.{leb, if◌then◌else◌}
use diasoft.Prelude.Equality.{◌==◌, Eq-nat}

-- unicode.IsSpace
unfoldable pub is_space : ℕ → Bool
is_space c =
    (leb 9 c && leb c 13)
    || c == 32
    || c == 0x85
    || c == 0xA0
    || c == 0x1680
    || (leb 0x2000 c && leb c 0x200a)
    || c == 0x2028
    || c == 0x2029
    || c == 0x202f
    || c == 0x205f
    || c == 0x3000

abbrev pub is_empty : String → Bool
is_empty String.[] = true
is_empty (String.◌∷◌ c s) = false

unfoldable pub trim_left : String → String
trim_left String.[] = ""
trim_left (String.◌∷◌ c s) = if is_space (code c) then trim_left s else String.◌∷◌ c s

-- c, unless it is a space with nothing behind it.
abbrev pub keep : Char → String → String
keep c rest = if is_empty rest && is_space (code c) then "" else String.◌∷◌ c rest

unfoldable pub trim_right : String → String
trim_right String.[] = ""
trim_right (String.◌∷◌ c s) = keep c (trim_right s)

-- strings.TrimSpace
unfoldable pub trim_space : String → String
unfolding is_space trim_left trim_right
trim_space s = trim_left (trim_right s)

-- strings.TrimSpace(s) == ""
abbrev pub blank : String → Bool
blank s = is_empty (trim_space s)

-- The first part, with c in front of it.
abbrev pub onto_first : Char → List String → List String
onto_first c [] = String.◌∷◌ c "" ∷ []
onto_first c (p ∷ ps) = String.◌∷◌ c p ∷ ps

-- strings.Split(s, sep) where sep is one character
unfoldable pub split : ℕ → String → List String
split sep String.[] = "" ∷ []
split sep (String.◌∷◌ c s) =
    let rest = split sep s in if code c == sep then "" ∷ rest else onto_first c rest

-- strings.Join(parts, sep) where sep is one character
unfoldable pub join : Char → List String → String
join sep [] = ""
join sep (p ∷ []) = p
join sep (p ∷ q ∷ ps) = String.◌++◌ p (String.◌∷◌ sep (join sep (q ∷ ps)))

-- The lower-case letter that folds together with c; of the characters beyond ASCII only the Kelvin
-- sign and the long s fold together with a letter of ASCII.
unfoldable pub fold_code : ℕ → ℕ
fold_code c =
    if leb b'A' c && leb c b'Z'
    then c + 32
    else if c == 0x212a
    then b'k'
    else if c == 0x17f
    then b's'
    else c

-- strings.EqualFold(s, t) where one of the two is ASCII
unfoldable pub equal_fold : String → String → Bool
unfolding fold_code
equal_fold String.[] String.[] = true
equal_fold String.[] (String.◌∷◌ d t) = false
equal_fold (String.◌∷◌ c s) String.[] = false
equal_fold (String.◌∷◌ c s) (String.◌∷◌ d t) =
    fold_code (code c) == fold_code (code d) && equal_fold s t

trim_tests : (trim_space " \tab c \n" ≡ "ab c") × (trim_space "  " ≡ "") × (trim_space "x" ≡ "x")
unfolding trim_space
trim_tests = (refl, refl, refl)

split_tests : (split b'.' "a.b." ≡ "a" ∷ "b" ∷ "" ∷ []) × (split b'.' "" ≡ "" ∷ [])
unfolding split
split_tests = (refl, refl)

fold_tests : (equal_fold "BEARER" "Bearer" ≡ true) × (equal_fold "Bear" "Bearer" ≡ false)
unfolding equal_fold
fold_tests = (refl, refl)

-- The number of characters, as VARCHAR(n) counts them.
abbrev pub char_count : String → ℕ
char_count String.[] = 0
char_count (String.◌∷◌ c s) = suc (char_count s)

starts_with : String → String → Bool
starts_with String.[] s = true
starts_with (String.◌∷◌ p ps) String.[] = false
starts_with (String.◌∷◌ p ps) (String.◌∷◌ c s) = code p == code c && starts_with ps s

-- strings.Contains
unfoldable pub contains : String → String → Bool
unfolding starts_with
contains String.[] part = starts_with part ""
contains (String.◌∷◌ c s) part = starts_with part (String.◌∷◌ c s) || contains s part
