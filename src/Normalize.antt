-- ===== src/Normalize.antt =====
-- packages/receipt-core/src/normalize.ts: every untrusted scalar is brought into one canonical form,
-- or refused. Timestamps are in the child module `Timestamp`.
pub mod Calendar
pub mod Timestamp
pub mod Urls
pub mod Stable
pub mod Dates
pub mod Instants
use submittedit.Common.{
  ℕ, suc, String, ℤ, pos, negsuc, ◌^◌, ◌-◌, ◌≡◌, Bool, true, false, not, ◌&&◌, ◌||◌, Option, none,
  some, List, [], ◌∷◌, map, leb, ltb, ◌==◌, if◌then◌else◌, suc,
}
use submittedit.Common.Lists.{all, length}
use submittedit.Text.{
  Text, u, text_eq, is_digit, is_lower, is_upper, is_hex, to_lower, to_upper, decimal_value,
  is_canonical_decimal,
}
use submittedit.Result.{
  Result, ok, err, throw, throw_if, ◌>>=◌, ◌>>◌, JsonPath, expected_string, empty_string,
  invalid_schema_version, unsupported_schema_major, invalid_hash, invalid_address, invalid_url,
  invalid_url_scheme, url_credentials_forbidden, invalid_http_method, invalid_base64url,
  invalid_decimal, invalid_integer,
}
use submittedit.Value.{Value, str, num}
use submittedit.Host.{Host, Url}

-- `replace(/\r\n?/g, "\n")`; the flag says that a carriage return stands just before.
unfoldable pub unify_newlines : Bool → Text → Text
unify_newlines after_cr [] = []
unify_newlines after_cr (c ∷ s) =
    let rest = unify_newlines (c == 13) s in
    if c == 13 then 10 ∷ rest else if after_cr && c == 10 then rest else c ∷ rest

unfoldable pub normalize_text : Host → Text → Text
normalize_text host s = host.nfc (unify_newlines false s)

-- `HASH_PATTERN` at 64 digits, `ADDRESS_PATTERN` at 40.
unfoldable pub is_prefixed_hex : ℕ → Text → Bool
unfolding is_hex
is_prefixed_hex digits (a ∷ b ∷ s) = a == b'0' && b == b'x' && length s == digits && all is_hex s
is_prefixed_hex digits _ = false

-- `HTTP_METHOD_PATTERN`.
unfoldable pub is_token_char : ℕ → Bool
unfolding is_digit is_lower is_upper
is_token_char c =
    is_digit c
    || is_lower c
    || is_upper c
    || c == b'!'
    || c == b'#'
    || c == b'$'
    || c == b'%'
    || c == b'&'
    || c == 39
    || c == b'*'
    || c == b'+'
    || c == b'.'
    || c == b'^'
    || c == b'_'
    || c == b'`'
    || c == b'|'
    || c == b'~'
    || c == b'-'

-- `BASE64URL_PATTERN`.
unfoldable pub is_base64url_char : ℕ → Bool
unfolding is_digit is_lower is_upper
is_base64url_char c = is_digit c || is_lower c || is_upper c || c == b'_' || c == b'-'

-- A pattern `/^[…]+$/`.
unfoldable pub is_run_of : (ℕ → Bool) → Text → Bool
is_run_of p [] = false
is_run_of p (c ∷ s) = p c && all p s

abbrev prepend : ℕ → Option (Text × Text) → Option (Text × Text)
prepend c none = none
prepend c (some (a, b)) = some (c ∷ a, b)

-- The part before the first dot and the part after it.
unfoldable pub split_dot : Text → Option (Text × Text)
split_dot [] = none
split_dot (c ∷ s) = let rest = prepend c (split_dot s) in if c == b'.' then some ([], s) else rest

abbrev pub max_safe_integer : ℕ
max_safe_integer = 2 ^ 53 - 1

-- White space and line ends, as `trim` and `\s` read them.
unfoldable pub is_space : ℕ → Bool
is_space c =
    leb 9 c && leb c 13
    || c == 32
    || c == 0xa0
    || c == 0x1680
    || leb 0x2000 c && leb c 0x200a
    || c == 0x2028
    || c == 0x2029
    || c == 0x202f
    || c == 0x205f
    || c == 0x3000
    || c == 0xfeff

abbrev last_is_space : Bool → Text → Bool
last_is_space seen [] = seen
last_is_space seen (c ∷ s) = last_is_space (is_space c) s

abbrev first_is_space : Text → Bool
first_is_space [] = false
first_is_space (c ∷ s) = is_space c

-- `s !== s.trim()`.
unfoldable pub has_outer_space : Text → Bool
unfolding is_space
has_outer_space s = first_is_space s || last_is_space false s

abbrev non_empty : Text → JsonPath → Result Text
non_empty [] path = throw empty_string path
non_empty (c ∷ s) path = ok (c ∷ s)

module _ (host : Host) where
  unfoldable pub normalize_non_empty_text : Value → JsonPath → Result Text
  unfolding normalize_text
  normalize_non_empty_text (str s) path = non_empty (normalize_text host s) path
  normalize_non_empty_text _ path = throw expected_string path

  unfoldable pub normalize_optional_text : Value → JsonPath → Result Text
  unfolding normalize_text
  normalize_optional_text (str s) path = ok (normalize_text host s)
  normalize_optional_text _ path = throw expected_string path

abbrev check_version : Text → Option (Text × Text) → JsonPath → Result Text
check_version s none path = throw invalid_schema_version path
check_version s (some (major, minor)) path = do
  throw_if (not (is_canonical_decimal major && is_canonical_decimal minor)) invalid_schema_version
      path
  throw_if (not (decimal_value 0 major == 1)) unsupported_schema_major path
  ok s

unfoldable pub normalize_schema_version : Value → JsonPath → Result Text
unfolding split_dot is_canonical_decimal decimal_value
normalize_schema_version (str s) path = check_version s (split_dot s) path
normalize_schema_version _ path = throw invalid_schema_version path

unfoldable pub normalize_hash : Value → JsonPath → Result Text
unfolding is_prefixed_hex to_lower
normalize_hash (str s) path =
    if is_prefixed_hex 64 s then ok (map to_lower s) else throw invalid_hash path
normalize_hash _ path = throw invalid_hash path

unfoldable pub normalize_address : Value → JsonPath → Result Text
unfolding is_prefixed_hex to_lower
normalize_address (str s) path =
    if is_prefixed_hex 40 s then ok (map to_lower s) else throw invalid_address path
normalize_address _ path = throw invalid_address path

abbrev is_empty : Text → Bool
is_empty [] = true
is_empty (c ∷ s) = false

abbrev check_url : Option Url → JsonPath → Result Url
check_url none path = throw invalid_url path
check_url (some url) path = do
  throw_if (not (text_eq url.protocol (u "http:") || text_eq url.protocol (u "https:")))
      invalid_url_scheme path
  throw_if (not (is_empty url.username && is_empty url.password)) url_credentials_forbidden path
  ok url

module _ (host : Host) where
  unfoldable pub parse_http_url : Value → JsonPath → Result Url
  parse_http_url (str s) path = do
    let normalized = normalize_text host s
    throw_if (has_outer_space normalized) invalid_url path
    check_url (host.parse_url normalized) path
  parse_http_url _ path = throw invalid_url path

  unfoldable pub normalize_origin : Value → JsonPath → Result Text
  unfolding parse_http_url
  normalize_origin value path = do url ← parse_http_url value path; ok url.origin

  unfoldable pub normalize_url : Value → JsonPath → Result Text
  unfolding parse_http_url
  normalize_url value path = do url ← parse_http_url value path; ok url.href_without_hash

  unfoldable pub normalize_http_method : Value → JsonPath → Result Text
  unfolding normalize_text is_run_of is_token_char to_upper
  normalize_http_method (str s) path =
      if is_run_of is_token_char (normalize_text host s)
      then ok (map to_upper (normalize_text host s))
      else throw invalid_http_method path
  normalize_http_method _ path = throw invalid_http_method path

unfoldable pub normalize_base64_url : Value → JsonPath → Result Text
unfolding is_run_of is_base64url_char
normalize_base64_url (str s) path =
    if is_run_of is_base64url_char s then ok s else throw invalid_base64url path
normalize_base64_url _ path = throw invalid_base64url path

unfoldable pub normalize_decimal_string : Value → JsonPath → Result Text
unfolding is_canonical_decimal
normalize_decimal_string (str s) path =
    if is_canonical_decimal s then ok s else throw invalid_decimal path
normalize_decimal_string _ path = throw invalid_decimal path

unfoldable pub normalize_non_negative_safe_integer : Value → JsonPath → Result ℕ
normalize_non_negative_safe_integer (num (pos n)) path =
    if leb n max_safe_integer then ok n else throw invalid_integer path
normalize_non_negative_safe_integer _ path = throw invalid_integer path

unfoldable pub normalize_positive_safe_integer : Value → JsonPath → Result ℕ
unfolding normalize_non_negative_safe_integer
normalize_positive_safe_integer value path = do
  n ← normalize_non_negative_safe_integer value path
  throw_if (n == 0) invalid_integer path
  ok n
