-- ===== src/Text.antt =====
-- Strings of the program: sequences of UTF-16 code units, as JavaScript has them, with the tests
-- that packages/receipt-core/src/normalize.ts makes by regular expressions.
pub mod Order
pub mod Decimal
use Prim.Native.Char.{code}
use submittedit.Common.{
  ℕ, suc, ◌+◌, ◌*◌, ◌-◌, String, Bool, true, false, ◌&&◌, ◌||◌, Option, none, some, List, [], ◌∷◌,
  ◌++◌, ltb, leb, ◌==◌, if◌then◌else◌,
}
use submittedit.Common.Lists.{all, length}

abbrev pub Text : Type 0
Text = List ℕ

-- The code units of a literal of the source, which are all ASCII.
unfoldable pub u : String → Text
u String.[] = []
u (String.◌∷◌ c s) = code c ∷ u s

-- `===` on strings.
unfoldable pub text_eq : Text → Text → Bool
text_eq [] [] = true
text_eq (a ∷ s) (b ∷ t) = a == b && text_eq s t
text_eq _ _ = false

unfoldable pub starts_with : Text → Text → Bool
starts_with [] s = true
starts_with (a ∷ p) (b ∷ s) = a == b && starts_with p s
starts_with (a ∷ p) [] = false

-- `includes` of a string.
unfoldable pub includes : Text → Text → Bool
unfolding starts_with
includes p [] = starts_with p []
includes p (c ∷ s) = starts_with p (c ∷ s) || includes p s

unfoldable pub contains : List Text → Text → Bool
contains [] t = false
contains (s ∷ ss) t = text_eq s t || contains ss t

-- `[0-9]`, `[a-z]`, `[A-Z]`, `[0-9a-fA-F]`.
unfoldable pub is_digit : ℕ → Bool
is_digit c = leb b'0' c && leb c b'9'

unfoldable pub is_lower : ℕ → Bool
is_lower c = leb b'a' c && leb c b'z'

unfoldable pub is_upper : ℕ → Bool
is_upper c = leb b'A' c && leb c b'Z'

unfoldable pub is_hex : ℕ → Bool
unfolding is_digit
is_hex c = is_digit c || leb b'a' c && leb c b'f' || leb b'A' c && leb c b'F'

-- `toLowerCase` and `toUpperCase`, on text that a pattern has shown to be ASCII.
unfoldable pub to_lower : ℕ → ℕ
unfolding is_upper
to_lower c = if is_upper c then c + 32 else c

unfoldable pub to_upper : ℕ → ℕ
unfolding is_lower
to_upper c = if is_lower c then c - 32 else c

unfoldable pub decimal_value : ℕ → Text → ℕ
decimal_value acc [] = acc
decimal_value acc (c ∷ s) = decimal_value (acc * 10 + (c - b'0')) s

-- `/^(0|[1-9]\d*)$/`.
unfoldable pub is_canonical_decimal : Text → Bool
unfolding is_digit
is_canonical_decimal [] = false
is_canonical_decimal (c ∷ s) = if c == b'0' then length s == 0 else is_digit c && all is_digit s
