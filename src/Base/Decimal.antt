-- ===== src/Base/Decimal.antt =====
-- Python's `str` of a natural number.
use Prim.Native.String.{◌++◌ as ◌⧺◌}
use holahost.Base.{ℕ, zero, suc, ◌/◌, ◌%◌, String, ltb, ◌==◌, if◌then◌else◌}

digit : ℕ → String
digit n =
    if n == 0
    then "0"
    else if n == 1
    then "1"
    else if n == 2
    then "2"
    else if n == 3
    then "3"
    else if n == 4
    then "4"
    else if n == 5
    then "5"
    else if n == 6
    then "6"
    else if n == 7
    then "7"
    else if n == 8
    then "8"
    else "9"

-- With more digits allowed than the number has.
digits : ℕ → ℕ → String
digits zero n = ""
digits (suc more) n =
    let high = digits more (n / 10) in if ltb n 10 then digit n else high ⧺ digit (n % 10)

-- `str(number)`
unfoldable pub str : ℕ → String
unfolding digit digits
str n = digits (suc n) n
