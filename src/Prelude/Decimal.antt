-- ===== src/Prelude/Decimal.antt =====
-- `u64::to_string`.
use Prim.Native.String.{◌++◌}
use open_jax.Prelude.{ℕ, zero, suc, ◌/◌, ◌%◌, String, ◌≡◌, refl, ltb, ◌==◌, if◌then◌else◌}

abbrev pub digit : ℕ → String
digit n =
    if n == 0
    then "0"
    else if n == 1
    then "1"
    else if n == 2
    then "2"
    else if n == 3
    then "3"
    else if n == 4
    then "4"
    else if n == 5
    then "5"
    else if n == 6
    then "6"
    else if n == 7
    then "7"
    else if n == 8
    then "8"
    else "9"

-- A number below 10 ^ fuel has at most `fuel` digits.
unfoldable pub digits : ℕ → ℕ → String
digits zero n = ""
digits (suc fuel) n =
    let front = digits fuel (n / 10) in if ltb n 10 then digit n else front ++ digit (n % 10)

-- Every `u64` is below 10 ^ 20.
unfoldable pub to_string : ℕ → String
unfolding digits
to_string n = digits 20 n

to_string_zero : to_string 0 ≡ "0"
unfolding to_string
to_string_zero = refl

to_string_max : to_string 18446744073709551615 ≡ "18446744073709551615"
unfolding to_string
to_string_max = refl
