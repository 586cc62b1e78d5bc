-- ===== src/Text/Decimal.antt =====
-- Decimal digits: printing a number, with `padStart` where a width is given.
use submittedit.Common.{ℕ, zero, suc, ◌+◌, ◌/◌, ◌%◌, [], ◌∷◌, ◌++◌, ltb, if◌then◌else◌}
use submittedit.Text.{Text}

-- The last `k` decimal digits of a number.
unfoldable pub pad_digits : ℕ → ℕ → Text
pad_digits zero n = []
pad_digits (suc k) n = pad_digits k (n / 10) ++ (b'0' + n % 10) ∷ []

-- The decimal digits of a number, on fuel, before those that follow; `suc n` rounds are enough.
unfoldable pub print_decimal_from : ℕ → ℕ → Text → Text
print_decimal_from zero n acc = acc
print_decimal_from (suc k) n acc =
    let more = print_decimal_from k (n / 10) ((b'0' + n % 10) ∷ acc) in
    if ltb n 10 then (b'0' + n) ∷ acc else more

-- `String(n)`.
unfoldable pub print_decimal : ℕ → Text
unfolding print_decimal_from
print_decimal n = print_decimal_from (suc n) n []
