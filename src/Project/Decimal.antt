-- ===== src/Project/Decimal.antt =====
-- src/project/op.rs and src/project/types.rs: numbers that `format!` writes.
use Prim.Native.String.{◌++◌ as str_append}
use windy_public.Prelude.{ℕ, zero, suc, ◌/◌, ◌%◌, String, if◌then◌else◌, ltb, ◌==◌}

-- `{i}` in a format string: at most `fuel` digits.
unfoldable pub decimal_digit : ℕ → String
decimal_digit d =
    if d == 0
    then "0"
    else if d == 1
    then "1"
    else if d == 2
    then "2"
    else if d == 3
    then "3"
    else if d == 4
    then "4"
    else if d == 5
    then "5"
    else if d == 6
    then "6"
    else if d == 7
    then "7"
    else if d == 8
    then "8"
    else "9"

unfoldable pub decimal : ℕ → ℕ → String
unfolding decimal_digit
decimal zero n = ""
decimal (suc fuel) n =
    let rest = decimal fuel (n / 10) in
    if ltb n 10 then decimal_digit n else str_append rest (decimal_digit (n % 10))
