-- ===== src/Canonical/Json.antt =====
-- `JSON.stringify` of canonical values, and `TextEncoder`: `canonicalize` and `encodeCanonicalUtf8` of
-- packages/receipt-core/src/canonicalize.ts.
use submittedit.Common.{
  ℕ, suc, ◌+◌, ◌-◌, ◌*◌, ◌/◌, ◌%◌, ℤ, pos, negsuc, Bool, true, false, ◌&&◌, ◌||◌, List, [], ◌∷◌,
  ◌++◌, leb, ltb, ◌==◌, if◌then◌else◌,
}
use submittedit.Text.{Text, u}
use submittedit.Text.Decimal.{print_decimal}
use submittedit.Result.{Result, ok, ◌>>=◌, root}
use submittedit.Value.{Value}
use submittedit.Host.{Host}
use submittedit.Canonical.{
  Canonical, null, bool, num, str, arr, obj, Items, nil, cons, Entries, end, entry,
  normalize_canonical_value,
}

unfoldable pub hex_digit : ℕ → ℕ
hex_digit n = if ltb n 10 then b'0' + n else b'a' + (n - 10)

-- `\uXXXX`.
unfoldable pub unicode_escape : ℕ → Text
unfolding hex_digit
unicode_escape c =
    92
    ∷ b'u'
    ∷ hex_digit (c / 4096 % 16)
    ∷ hex_digit (c / 256 % 16)
    ∷ hex_digit (c / 16 % 16)
    ∷ hex_digit (c % 16)
    ∷ []

abbrev is_high : ℕ → Bool
is_high c = leb 0xd800 c && leb c 0xdbff

abbrev is_low : ℕ → Bool
is_low c = leb 0xdc00 c && leb c 0xdfff

-- One code unit of a quoted string; 34 is the quote and 92 the backslash.
unfoldable pub escape_unit : ℕ → Text
unfolding unicode_escape
escape_unit c =
    if c == 34 || c == 92
    then 92 ∷ c ∷ []
    else if c == 8
    then 92 ∷ b'b' ∷ []
    else if c == 9
    then 92 ∷ b't' ∷ []
    else if c == 10
    then 92 ∷ b'n' ∷ []
    else if c == 12
    then 92 ∷ b'f' ∷ []
    else if c == 13
    then 92 ∷ b'r' ∷ []
    else if ltb c 32 || is_high c || is_low c
    then unicode_escape c
    else c ∷ []

-- A surrogate pair is one character and is written as it stands.
unfoldable pub escape_text : Text → Text
unfolding escape_unit
escape_text [] = []
escape_text (c ∷ []) = escape_unit c
escape_text (c ∷ d ∷ s) =
    let pair = c ∷ d ∷ escape_text s in
    let single = escape_unit c ++ escape_text (d ∷ s) in
    if is_high c && is_low d then pair else single

unfoldable pub quote : Text → Text
unfolding escape_text
quote s = 34 ∷ (escape_text s ++ (34 ∷ []))

unfoldable pub print_integer : ℤ → Text
unfolding print_decimal
print_integer (pos n) = print_decimal n
print_integer (negsuc n) = b'-' ∷ print_decimal (suc n)

unfoldable mutual
  unfolding quote print_integer u

  pub stringify : Canonical → Text
  stringify null = u "null"
  stringify (bool true) = u "true"
  stringify (bool false) = u "false"
  stringify (num n) = print_integer n
  stringify (str s) = quote s
  stringify (arr nil) = u "[]"
  stringify (arr (cons v vs)) = b'[' ∷ (stringify v ++ stringify_items vs)
  stringify (obj end) = u "{}"
  stringify (obj (entry k v es)) =
      b'{' ∷ (quote k ++ (b':' ∷ (stringify v ++ stringify_entries es)))

  -- The items after the first, and the closing bracket.
  pub stringify_items : Items → Text
  stringify_items nil = b']' ∷ []
  stringify_items (cons v vs) = b',' ∷ (stringify v ++ stringify_items vs)

  pub stringify_entries : Entries → Text
  stringify_entries end = b'}' ∷ []
  stringify_entries (entry k v es) =
      b',' ∷ (quote k ++ (b':' ∷ (stringify v ++ stringify_entries es)))

-- UTF-8 of one character below 2 ^ 16; a lone surrogate becomes U+FFFD.
unfoldable pub utf8_unit : ℕ → List ℕ
utf8_unit c =
    if ltb c 0x80
    then c ∷ []
    else if ltb c 0x800
    then (0xc0 + c / 64) ∷ (0x80 + c % 64) ∷ []
    else if is_high c || is_low c
    then 0xef ∷ 0xbf ∷ 0xbd ∷ []
    else (0xe0 + c / 4096) ∷ (0x80 + c / 64 % 64) ∷ (0x80 + c % 64) ∷ []

unfoldable pub utf8_pair : ℕ → ℕ → List ℕ
utf8_pair c d =
    let p = 0x10000 + (c - 0xd800) * 1024 + (d - 0xdc00) in
    (0xf0 + p / 262144) ∷ (0x80 + p / 4096 % 64) ∷ (0x80 + p / 64 % 64) ∷ (0x80 + p % 64) ∷ []

-- `new TextEncoder().encode(text)`.
unfoldable pub utf8 : Text → List ℕ
unfolding utf8_unit utf8_pair
utf8 [] = []
utf8 (c ∷ []) = utf8_unit c
utf8 (c ∷ d ∷ s) =
    let pair = utf8_pair c d ++ utf8 s in
    let single = utf8_unit c ++ utf8 (d ∷ s) in if is_high c && is_low d then pair else single

module _ (host : Host) where
  unfoldable pub to_canonical_value : Value → Result Canonical
  unfolding normalize_canonical_value
  to_canonical_value value = normalize_canonical_value host value root

  unfoldable pub canonicalize : Value → Result Text
  unfolding to_canonical_value stringify
  canonicalize value = do c ← to_canonical_value value; ok (stringify c)

  unfoldable pub encode_canonical_utf8 : Value → Result (List ℕ)
  unfolding canonicalize utf8
  encode_canonical_utf8 value = do text ← canonicalize value; ok (utf8 text)
