-- ===== src/Text/Decimal.antt =====
-- `str(n)` of Python for the numbers that src/py_near writes out.
use py_near.Base.{ℕ, zero, suc, ◌/◌, ◌%◌, String, ◌<>◌, ◌==◌, ltb, if◌then◌else◌}

unfoldable pub digit : ℕ → String
digit n =
    if n == 0
    then "0"
    else if n == 1
    then "1"
    else if n == 2
    then "2"
    else if n == 3
    then "3"
    else if n == 4
    then "4"
    else if n == 5
    then "5"
    else if n == 6
    then "6"
    else if n == 7
    then "7"
    else if n == 8
    then "8"
    else "9"

-- The decimal digits of a number; the fuel is at least the number of digits.
unfoldable pub decimal_from : ℕ → ℕ → String
decimal_from zero n = digit n
decimal_from (suc fuel) n =
    let front = decimal_from fuel (n / 10) in if ltb n 10 then digit n else front <> digit (n % 10)

-- `str(n)`
unfoldable pub decimal : ℕ → String
unfolding decimal_from digit
decimal n = decimal_from n n
