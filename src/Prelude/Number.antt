-- ===== src/Prelude/Number.antt =====
-- Numbers in texts.
use Prim.Native.Nat.{ℕ, zero, suc, ◌+◌, ◌-◌, ◌*◌, ◌/◌, ◌%◌, ◌^◌}
use Prim.Native.Char.{code}
use Prim.Native.String
use Prim.Native.String.{String}
use mathlib.Core.Bool.{◌&&◌}
use mathlib.Core.Option.{Option, none, some}
use diasoft.Prelude.Tests.{ltb, leb, if◌then◌else◌}
use diasoft.Prelude.Int.{ℤ, pos, negsuc}
use diasoft.Prelude.Equality.{◌==◌, Eq-nat}
use diasoft.Prelude.Text.{is_empty}

-- The value of decimal digits, added to what stands in front of them.
digits_value : ℕ → String → Option ℕ
digits_value acc String.[] = some acc
digits_value acc (String.◌∷◌ c s) =
    let rest = digits_value (acc * 10 + (code c - 48)) s in
    if leb 48 (code c) && leb (code c) 57 then rest else none

abbrev magnitude : String → Option ℕ
magnitude s = if is_empty s then none else digits_value 0 s

abbrev positive_int64 : Option ℕ → Option ℤ
positive_int64 none = none
positive_int64 (some n) = if ltb n (2 ^ 63) then some (pos n) else none

abbrev negative_int64 : Option ℕ → Option ℤ
negative_int64 none = none
negative_int64 (some zero) = some (pos 0)
negative_int64 (some (suc n)) = if ltb n (2 ^ 63) then some (negsuc n) else none

-- strconv.ParseInt(s, 10, 64)
unfoldable pub parse_int64 : String → Option ℤ
unfolding digits_value
parse_int64 String.[] = none
parse_int64 (String.◌∷◌ c s) =
    if code c == b'-'
    then negative_int64 (magnitude s)
    else if code c == b'+'
    then positive_int64 (magnitude s)
    else positive_int64 (magnitude (String.◌∷◌ c s))

-- One decimal digit.
abbrev digit : ℕ → String
digit zero = "0"
digit (suc zero) = "1"
digit (suc (suc zero)) = "2"
digit (suc (suc (suc zero))) = "3"
digit (suc (suc (suc (suc zero)))) = "4"
digit (suc (suc (suc (suc (suc zero))))) = "5"
digit (suc (suc (suc (suc (suc (suc zero)))))) = "6"
digit (suc (suc (suc (suc (suc (suc (suc zero))))))) = "7"
digit (suc (suc (suc (suc (suc (suc (suc (suc zero)))))))) = "8"
digit _ = "9"

-- The digits of n, on fuel: n + 1 rounds are enough, since n falls below n in each.
decimal_from : ℕ → ℕ → String
decimal_from zero n = ""
decimal_from (suc fuel) n =
    let front = decimal_from fuel (n / 10) in
    if ltb n 10 then digit n else String.◌++◌ front (digit (n % 10))

-- strconv.Itoa
unfoldable pub itoa : ℤ → String
unfolding decimal_from
itoa (pos n) = decimal_from (suc n) n
itoa (negsuc n) = String.◌++◌ "-" (decimal_from (suc (suc n)) (suc n))
