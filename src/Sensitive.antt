-- ===== src/Sensitive.antt =====
-- packages/receipt-core/src/sensitive.ts: the names of hidden fields and the autofill tokens whose
-- values must never be captured. The two patterns are matchers over their alternatives.
use submittedit.Common.{
  ℕ, Bool, true, false, ◌&&◌, ◌||◌, Option, none, some, List, [], ◌∷◌, ◌++◌, ◌==◌, if◌then◌else◌,
}
use submittedit.Common.Lists.{any}
use submittedit.Text.{Text, u, starts_with, includes, contains, is_digit, is_lower, to_lower}
use submittedit.Host.{Host}
use submittedit.Normalize.{normalize_text, is_space}

-- `[_:.-]`.
unfoldable pub is_boundary : ℕ → Bool
is_boundary c = c == b'_' || c == b':' || c == b'.' || c == b'-'

-- The alternatives of `SENSITIVE_HIDDEN_NAME_PATTERN`; `[_-]?` stands between two words.
unfoldable pub sensitive_words : List (List Text)
unfolding u
sensitive_words =
    (u "csrf" ∷ [])
    ∷ (u "xsrf" ∷ [])
    ∷ (u "auth" ∷ [])
    ∷ (u "authentication" ∷ [])
    ∷ (u "authorization" ∷ [])
    ∷ (u "session" ∷ [])
    ∷ (u "api" ∷ u "key" ∷ [])
    ∷ (u "client" ∷ u "secret" ∷ [])
    ∷ (u "access" ∷ u "token" ∷ [])
    ∷ (u "refresh" ∷ u "token" ∷ [])
    ∷ (u "id" ∷ u "token" ∷ [])
    ∷ (u "bearer" ∷ u "token" ∷ [])
    ∷ (u "token" ∷ [])
    ∷ (u "nonce" ∷ [])
    ∷ (u "secret" ∷ [])
    ∷ []

-- What is left after a word, letters compared without case, as the flag `i` says.
unfoldable pub strip_word : Text → Text → Option Text
unfolding to_lower
strip_word [] s = some s
strip_word (a ∷ w) [] = none
strip_word (a ∷ w) (c ∷ s) = let rest = strip_word w s in if a == to_lower c then rest else none

abbrev skip_separator : Text → List Text
skip_separator [] = []
skip_separator (c ∷ s) = if c == b'_' || c == b'-' then s ∷ [] else []

-- `$|[_:.-]`.
abbrev ends_here : Text → Bool
ends_here [] = true
ends_here (c ∷ s) = is_boundary c

-- The words of an alternative stand at the beginning of the text, with a boundary behind them.
unfoldable pub matches_words : List Text → Text → Bool
unfolding strip_word is_boundary
matches_words [] s = ends_here s
matches_words (w ∷ []) s = elim (strip_word w s) [ none ↦ false | some r ↦ ends_here r ]
matches_words (w ∷ x ∷ ws) s = elim (strip_word w s) [
  | none ↦ false
  | some r ↦ matches_words (x ∷ ws) r || any (matches_words (x ∷ ws)) (skip_separator r)
]

unfoldable pub matches_here : Text → Bool
unfolding matches_words sensitive_words
matches_here s = any (λ ws. matches_words ws s) sensitive_words

-- A match that begins with a boundary, anywhere.
unfoldable pub matches_after_boundary : Text → Bool
unfolding matches_here is_boundary
matches_after_boundary [] = false
matches_after_boundary (c ∷ s) = is_boundary c && matches_here s || matches_after_boundary s

-- `SENSITIVE_HIDDEN_NAME_PATTERN.test(s)`.
unfoldable pub test_hidden_name : Text → Bool
unfolding matches_after_boundary
test_hidden_name s = matches_here s || matches_after_boundary s

-- The alternatives of `SENSITIVE_COMPACT_NAME_PATTERN`; `session(?:id|token)?` is found where
-- `session` is.
unfoldable pub sensitive_compact_names : List Text
unfolding u
sensitive_compact_names =
    u "csrf"
    ∷ u "xsrf"
    ∷ u "authtoken"
    ∷ u "authenticationtoken"
    ∷ u "authorization"
    ∷ u "authenticitytoken"
    ∷ u "requestverificationtoken"
    ∷ u "apikey"
    ∷ u "apisecret"
    ∷ u "clientsecret"
    ∷ u "secretkey"
    ∷ u "accesstoken"
    ∷ u "refreshtoken"
    ∷ u "idtoken"
    ∷ u "bearertoken"
    ∷ u "session"
    ∷ u "nonce"
    ∷ []

-- `replace(/[^a-z0-9]/g, "")`.
unfoldable pub keep_alphanumeric : Text → Text
unfolding is_lower is_digit
keep_alphanumeric [] = []
keep_alphanumeric (c ∷ s) =
    let rest = keep_alphanumeric s in if is_lower c || is_digit c then c ∷ rest else rest

unfoldable pub test_compact_name : Text → Bool
unfolding includes sensitive_compact_names
test_compact_name s = any (λ name. includes name s) sensitive_compact_names

-- `split(/\s+/)`; the flag says that white space stands just before.
unfoldable pub split_spaces : Bool → Text → Text → List Text
unfolding is_space
split_spaces after_space cur [] = cur ∷ []
split_spaces after_space cur (c ∷ s) =
    let same = split_spaces true cur s in
    let next = cur ∷ split_spaces true [] s in
    let longer = split_spaces false (cur ++ (c ∷ [])) s in
    if is_space c then (if after_space then same else next) else longer

unfoldable pub autofill_secret_tokens : List Text
unfolding u
autofill_secret_tokens = u "current-password" ∷ u "new-password" ∷ u "one-time-code" ∷ []

unfoldable pub is_secret_token : Text → Bool
unfolding contains starts_with autofill_secret_tokens u
is_secret_token token = contains autofill_secret_tokens token || starts_with (u "cc-") token

module _ (host : Host) where
  unfoldable pub is_sensitive_hidden_field_name : Text → Bool
  unfolding normalize_text test_hidden_name test_compact_name keep_alphanumeric
  is_sensitive_hidden_field_name name =
      test_hidden_name (normalize_text host name)
      || test_compact_name (keep_alphanumeric (host.lower_case (normalize_text host name)))

  -- `!autocomplete` is true of `undefined` and of the empty string.
  unfoldable pub is_autofill_secret : Option Text → Bool
  unfolding normalize_text split_spaces is_secret_token
  is_autofill_secret none = false
  is_autofill_secret (some []) = false
  is_autofill_secret (some (c ∷ s)) =
      any is_secret_token (split_spaces false [] (host.lower_case (normalize_text host (c ∷ s))))
